-- ===== src/Protocol.antt =====
-- protocol/const.go: the numeric constants of the wire format.
pub mod DeviceClass
pub mod Texts
use pigsydust.Prelude.{ℕ}

abbrev pub manufacturer_id : ℕ
manufacturer_id = 0x0211

abbrev pub vendor_skytone : ℕ
vendor_skytone = 0x6969

abbrev pub vendor_skytone_alt : ℕ
vendor_skytone_alt = 0x0211

abbrev pub vendor_led_query : ℕ
vendor_led_query = 0x696B

abbrev pub op_type_client : ℕ
op_type_client = 3

abbrev pub op_on_off : ℕ
op_on_off = 0xED

abbrev pub op_group_on_off : ℕ
op_group_on_off = 0xE7

abbrev pub op_status_query : ℕ
op_status_query = 0xC5

abbrev pub op_status_poll : ℕ
op_status_poll = 0xDA

abbrev pub op_set_group : ℕ
op_set_group = 0xEF

abbrev pub op_query_group : ℕ
op_query_group = 0xD7

abbrev pub op_probe_group : ℕ
op_probe_group = 0xDD

abbrev pub op_led_set : ℕ
op_led_set = 0xFF

abbrev pub op_led_query : ℕ
op_led_query = 0xD9

abbrev pub op_find_me : ℕ
op_find_me = 0xF5

abbrev pub op_write_alarm : ℕ
op_write_alarm = 0xCC

abbrev pub op_query_alarm : ℕ
op_query_alarm = 0xCD

abbrev pub op_delete_alarm : ℕ
op_delete_alarm = 0xCE

abbrev pub op_slot_query : ℕ
op_slot_query = 0xF0

abbrev pub op_sunrise_sunset : ℕ
op_sunrise_sunset = 0xD0

abbrev pub op_notify_status_poll : ℕ
op_notify_status_poll = 0xDB

abbrev pub op_notify_status_broadcast : ℕ
op_notify_status_broadcast = 0xDC

abbrev pub op_notify_group_response : ℕ
op_notify_group_response = 0xD4

abbrev pub op_notify_group_ack : ℕ
op_notify_group_ack = 0xEE

abbrev pub op_notify_led_or_slot : ℕ
op_notify_led_or_slot = 0xD3

abbrev pub op_notify_alarm_fragment : ℕ
op_notify_alarm_fragment = 0xC2

abbrev pub led_ch_blue_select : ℕ
led_ch_blue_select = 0xA0

abbrev pub led_ch_orange_select : ℕ
led_ch_orange_select = 0xFF

abbrev pub led_ch_orange_internal : ℕ
led_ch_orange_internal = 0xB6

abbrev pub led_blue_on_level : ℕ
led_blue_on_level = 0x12

abbrev pub find_me_mode_blink : ℕ
find_me_mode_blink = 0x03

abbrev pub find_me_duration : ℕ
find_me_duration = 0x0F

abbrev pub schedule_slot_count : ℕ
schedule_slot_count = 250

abbrev pub schedule_slot_end : ℕ
schedule_slot_end = 0xFF

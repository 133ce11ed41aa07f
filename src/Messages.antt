-- ===== src/Messages.antt =====
-- inc/messages.h: the static messages. A static message is told apart by its address, so it is a
-- number here: the position of its field in `struct translation`, counted from 1. The texts of the
-- messages, which only reach the terminal, are not modelled.
use klunok.Prelude.{ℕ}

abbrev pub trace_because_of : ℕ
trace_because_of = 1

abbrev pub trace_which_is : ℕ
trace_which_is = 2

abbrev pub trace_message_dropped : ℕ
trace_message_dropped = 3

abbrev pub timestamp_overflow : ℕ
timestamp_overflow = 4

abbrev pub parents_cannot_create_ancestor : ℕ
parents_cannot_create_ancestor = 5

abbrev pub parents_cannot_remove_ancestor : ℕ
parents_cannot_remove_ancestor = 6

abbrev pub sync_source_is_not_regular_file : ℕ
sync_source_is_not_regular_file = 7

abbrev pub sync_source_does_not_exist : ℕ
sync_source_does_not_exist = 8

abbrev pub sync_source_permission_denied : ℕ
sync_source_permission_denied = 9

abbrev pub sync_destination_already_exists : ℕ
sync_destination_already_exists = 10

abbrev pub config_is_static : ℕ
config_is_static = 11

abbrev pub linq_invalid_entry : ℕ
linq_invalid_entry = 12

abbrev pub params_unknown_option : ℕ
params_unknown_option = 13

abbrev pub params_stray_option : ℕ
params_stray_option = 14

abbrev pub params_redefined_option : ℕ
params_redefined_option = 15

abbrev pub handler_version_has_slashes : ℕ
handler_version_has_slashes = 16

abbrev pub handler_config_cannot_load : ℕ
handler_config_cannot_load = 17

abbrev pub handler_config_cannot_reload : ℕ
handler_config_cannot_reload = 18

abbrev pub handler_linq_cannot_load : ℕ
handler_linq_cannot_load = 19

abbrev pub handler_linq_cannot_reload : ℕ
handler_linq_cannot_reload = 20

abbrev pub handler_linq_cannot_get_head : ℕ
handler_linq_cannot_get_head = 21

abbrev pub handler_linq_cannot_push : ℕ
handler_linq_cannot_push = 22

abbrev pub handler_store_cannot_copy : ℕ
handler_store_cannot_copy = 23

abbrev pub handler_journal_cannot_open : ℕ
handler_journal_cannot_open = 24

abbrev pub handler_journal_cannot_write_to : ℕ
handler_journal_cannot_write_to = 25

abbrev pub main_cannot_bootstrap : ℕ
main_cannot_bootstrap = 26

abbrev pub main_out_of_memory : ℕ
main_out_of_memory = 27

abbrev pub main_cli_usage_violated : ℕ
main_cli_usage_violated = 28

abbrev pub main_cannot_parse_cli : ℕ
main_cannot_parse_cli = 29

abbrev pub main_cannot_drop_privileges : ℕ
main_cannot_drop_privileges = 30

abbrev pub main_cannot_apply_process_hardening : ℕ
main_cannot_apply_process_hardening = 31

abbrev pub main_cannot_create_signalfd : ℕ
main_cannot_create_signalfd = 32

abbrev pub main_cannot_load_handler : ℕ
main_cannot_load_handler = 33

abbrev pub main_cannot_handle_exec : ℕ
main_cannot_handle_exec = 34

abbrev pub main_cannot_handle_write : ℕ
main_cannot_handle_write = 35

abbrev pub main_cannot_handle_timeout : ℕ
main_cannot_handle_timeout = 36

abbrev pub main_fanotify_cannot_init : ℕ
main_fanotify_cannot_init = 37

abbrev pub main_fanotify_cannot_poll : ℕ
main_fanotify_cannot_poll = 38

abbrev pub main_fanotify_cannot_read_event : ℕ
main_fanotify_cannot_read_event = 39

abbrev pub main_fanotify_version_mismatch : ℕ
main_fanotify_version_mismatch = 40

abbrev pub main_fanotify_queue_overflow : ℕ
main_fanotify_queue_overflow = 41

abbrev pub main_mount_cannot_list : ℕ
main_mount_cannot_list = 42

abbrev pub main_mount_cannot_watch : ℕ
main_mount_cannot_watch = 43

abbrev pub main_info_version : ℕ
main_info_version = 44

abbrev pub main_info_usage : ℕ
main_info_usage = 45

abbrev pub main_info_help : ℕ
main_info_help = 46

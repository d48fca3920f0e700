-- ===== src/Proto/FrameType.antt =====
-- internal/proto/frame.go: the FrameType constants.
use agbridge.Prelude.{ℕ}

abbrev pub ping : ℕ
ping = 1

abbrev pub pong : ℕ
pong = 2

abbrev pub error : ℕ
error = 3

abbrev pub hello : ℕ
hello = 10

abbrev pub hello_ack : ℕ
hello_ack = 11

abbrev pub route : ℕ
route = 12

abbrev pub exec_request : ℕ
exec_request = 20

abbrev pub exec_chunk : ℕ
exec_chunk = 21

abbrev pub exec_complete : ℕ
exec_complete = 22

abbrev pub file_read_request : ℕ
file_read_request = 30

abbrev pub file_write_request : ℕ
file_write_request = 31

abbrev pub file_chunk : ℕ
file_chunk = 32

abbrev pub file_complete : ℕ
file_complete = 33

abbrev pub file_edit_request : ℕ
file_edit_request = 34

abbrev pub list_dir_request : ℕ
list_dir_request = 35

abbrev pub list_dir_response : ℕ
list_dir_response = 36

abbrev pub stat_request : ℕ
stat_request = 37

abbrev pub stat_response : ℕ
stat_response = 38

abbrev pub stream_open : ℕ
stream_open = 40

abbrev pub stream_ack : ℕ
stream_ack = 41

abbrev pub stream_data : ℕ
stream_data = 42

abbrev pub stream_close : ℕ
stream_close = 43

abbrev pub noise_init : ℕ
noise_init = 50

abbrev pub noise_resp : ℕ
noise_resp = 51

abbrev pub noise_rekey : ℕ
noise_rekey = 52

abbrev pub capabilities_request : ℕ
capabilities_request = 60

abbrev pub capabilities_response : ℕ
capabilities_response = 61

abbrev pub upload_request : ℕ
upload_request = 70

abbrev pub download_request : ℕ
download_request = 71

abbrev pub bg_exec_request : ℕ
bg_exec_request = 80

abbrev pub bg_exec_response : ℕ
bg_exec_response = 81

abbrev pub search_request : ℕ
search_request = 90

abbrev pub search_response : ℕ
search_response = 91

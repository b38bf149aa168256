-- ===== src/Protocol/MsgType.antt =====
-- pkg/protocol/protocol.go: `MsgType`, the codes of the messages that a master or a data node looks at.
use lumeo_fs.Base.{ℕ}

abbrev pub heartbeat : ℕ
heartbeat = 1

abbrev pub register : ℕ
register = 2

abbrev pub put_file : ℕ
put_file = 10

abbrev pub get_file : ℕ
get_file = 11

abbrev pub delete_file : ℕ
delete_file = 12

abbrev pub list_dir : ℕ
list_dir = 13

abbrev pub get_status : ℕ
get_status = 20

abbrev pub alloc_chunk : ℕ
alloc_chunk = 21

abbrev pub write_chunk : ℕ
write_chunk = 30

abbrev pub read_chunk : ℕ
read_chunk = 31

abbrev pub sync_chunk : ℕ
sync_chunk = 32

abbrev pub set_role : ℕ
set_role = 40

abbrev pub get_version : ℕ
get_version = 50

abbrev pub response : ℕ
response = 100

-- ===== src/Proto/Msg.antt =====
-- The message types `MSG_*` of crates/quosh-proto/src/lib.rs.
use quosh.Base.{ℕ}

abbrev pub hello : ℕ
hello = 1

abbrev pub hello_ok : ℕ
hello_ok = 2

abbrev pub input : ℕ
input = 3

abbrev pub resize : ℕ
resize = 4

abbrev pub hangup : ℕ
hangup = 5

abbrev pub ack_state : ℕ
ack_state = 6

abbrev pub input_ack : ℕ
input_ack = 7

abbrev pub screen : ℕ
screen = 8

abbrev pub exit : ℕ
exit = 9

abbrev pub error : ℕ
error = 10

abbrev pub ping : ℕ
ping = 11

abbrev pub pong : ℕ
pong = 12

abbrev pub auth_hello : ℕ
auth_hello = 13

abbrev pub challenge : ℕ
challenge = 14

abbrev pub enroll : ℕ
enroll = 15

abbrev pub assert : ℕ
assert = 16

abbrev pub auth_ok : ℕ
auth_ok = 17

abbrev pub auth_fail : ℕ
auth_fail = 18

abbrev pub shared_screen : ℕ
shared_screen = 19

-- ===== src/Codec/Examples.antt =====
-- The codecs on the lines of the source's own tests, and the theorems at concrete answers.
use minifto.Common.{
  ℕ, ◌≡◌, refl, Option, none, some, List, [], ◌∷◌, ◌++◌, arith, ◌==◌, if◌then◌else◌, codes, ok,
  returns,
}
use minifto.Common.Int.{ℤ, pos, negsuc}
use minifto.Text.Utf8.{is_utf8_of_ascii}
use minifto.Text.Split.{find_crlf}
use minifto.Text.Decimal.{show}
use minifto.Cmd.Code.{ResultCode, number}
use minifto.Cmd.Answer
use minifto.Cmd.Answer.{Answer}
use minifto.Cmd.Command.{Command, as_ref}
use minifto.Cmd.Parse.RoundTrip.{print}
use minifto.Codec.{encode_answer, decode_command, encode_bytes, decode_answer}
use minifto.Codec.RoundTrip.{decode_command-encode_bytes, decode_answer-encode_answer}

-- test_encoder
encoded :
    encode_answer (Answer.new ResultCode.bad_cmd_seq (codes "bad sequence of commands")) []
    ≡ codes "503 bad sequence of commands" ++ b'\r' ∷ b'\n' ∷ []
unfolding encode_answer show number Answer.new
encoded = refl

-- A function that has the property of the derived one.
abbrev all_codes : List ResultCode
all_codes =
    ResultCode.series ∷ ResultCode.restart_maker_replay ∷ ResultCode.service_ready
    ∷ ResultCode.data_conn_opened ∷ ResultCode.file_status_ok ∷ ResultCode.ok
    ∷ ResultCode.sys_status ∷ ResultCode.dir_status ∷ ResultCode.file_status ∷ ResultCode.help_msg
    ∷ ResultCode.name_sys_type ∷ ResultCode.service_ready_for_usr ∷ ResultCode.service_close_ctl_con
    ∷ ResultCode.data_conn_open ∷ ResultCode.close_data_close ∷ ResultCode.pass_mode
    ∷ ResultCode.long_pass_mode ∷ ResultCode.entended_pass_mode ∷ ResultCode.login
    ∷ ResultCode.logout ∷ ResultCode.logout_cmd ∷ ResultCode.file_act_ok ∷ ResultCode.creat_path
    ∷ ResultCode.need_psw ∷ ResultCode.need_account ∷ ResultCode.file_action_pending
    ∷ ResultCode.service_not_avail ∷ ResultCode.data_conn_fail ∷ ResultCode.conn_close
    ∷ ResultCode.file_busy ∷ ResultCode.local_errr ∷ ResultCode.not_enough_space
    ∷ ResultCode.syntax_err ∷ ResultCode.cmd_not_impl ∷ ResultCode.bad_cmd_seq
    ∷ ResultCode.cmd_not_cmpl_param ∷ ResultCode.not_login ∷ ResultCode.need_account_storing_files
    ∷ ResultCode.file_not_found ∷ ResultCode.page_type_unknown ∷ ResultCode.exceeded_storage_alloc
    ∷ ResultCode.file_name_not_allow ∷ []

search : List ResultCode → ℕ → Option ResultCode
search [] n = none
search (c ∷ l) n = if number c == n then some c else search l n

pub from_i32 : ℤ → Option ResultCode
unfolding search number
from_i32 (pos n) = search all_codes n
from_i32 (negsuc n) = none

pub from_number : (c : ResultCode) → from_i32 (pos (number c)) ≡ some c
unfolding from_i32
from_number ResultCode.series = refl
from_number _ = refl

decode_answer-encode_answer_example :
    decode_answer from_i32 (encode_answer (Answer.new ResultCode.login (codes "Welcome bob")) [])
    ≡ returns (ok (some (Answer.new ResultCode.login (codes "Welcome bob"))))
decode_answer-encode_answer_example =
    decode_answer-encode_answer from_i32 from_number ResultCode.login (codes "Welcome bob")
      (is_utf8_of_ascii _ (omega arith)) (unfold find_crlf in refl)

decode_command-encode_bytes_example :
    decode_command (encode_bytes (print Command.pwd) []) ≡ returns (ok (some Command.pwd))
unfolding as_ref
decode_command-encode_bytes_example =
    decode_command-encode_bytes Command.pwd tt (unfold find_crlf print in refl)

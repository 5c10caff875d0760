-- ===== src/Cmd/Code.antt =====
-- handler/cmd.rs: `ResultCode` and the number of each code.
use minifto.Common.{ℕ, ◌≤◌, ◌<◌, arith}

pub data ResultCode : Type 0 where
  series restart_maker_replay service_ready data_conn_opened file_status_ok : ResultCode
  ok sys_status dir_status file_status help_msg name_sys_type : ResultCode
  service_ready_for_usr service_close_ctl_con data_conn_open close_data_close : ResultCode
  pass_mode long_pass_mode entended_pass_mode login logout logout_cmd : ResultCode
  file_act_ok creat_path need_psw need_account file_action_pending : ResultCode
  service_not_avail data_conn_fail conn_close file_busy local_errr : ResultCode
  not_enough_space syntax_err cmd_not_impl bad_cmd_seq cmd_not_cmpl_param : ResultCode
  not_login need_account_storing_files file_not_found page_type_unknown : ResultCode
  exceeded_storage_alloc file_name_not_allow : ResultCode

-- `code as i32` and `code as u32`
unfoldable pub number : ResultCode → ℕ
number series = 100
number restart_maker_replay = 110
number service_ready = 120
number data_conn_opened = 125
number file_status_ok = 150
number ok = 200
number sys_status = 211
number dir_status = 212
number file_status = 213
number help_msg = 214
number name_sys_type = 215
number service_ready_for_usr = 220
number service_close_ctl_con = 221
number data_conn_open = 225
number close_data_close = 226
number pass_mode = 227
number long_pass_mode = 228
number entended_pass_mode = 229
number login = 230
number logout = 231
number logout_cmd = 232
number file_act_ok = 250
number creat_path = 257
number need_psw = 331
number need_account = 332
number file_action_pending = 350
number service_not_avail = 421
number data_conn_fail = 425
number conn_close = 426
number file_busy = 450
number local_errr = 451
number not_enough_space = 452
number syntax_err = 500
number cmd_not_impl = 502
number bad_cmd_seq = 503
number cmd_not_cmpl_param = 504
number not_login = 530
number need_account_storing_files = 532
number file_not_found = 550
number page_type_unknown = 551
number exceeded_storage_alloc = 552
number file_name_not_allow = 553

pub number_bounds : (c : ResultCode) → (100 ≤ number c) × (number c < 1000)
unfolding number
number_bounds series = omega arith
number_bounds _ = omega arith

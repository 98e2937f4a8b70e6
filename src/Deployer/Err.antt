-- ===== src/Deployer/Err.antt =====
-- StragetyDeployer/CommonStruct.h: `EResponseErrType`, as the int that travels.
use cpp_linux_learn.Common.{ℕ}

abbrev pub success : ℕ
success = 0

abbrev pub replicated_login : ℕ
replicated_login = 1

abbrev pub identify_err : ℕ
identify_err = 2

abbrev pub no_login : ℕ
no_login = 3

abbrev pub multi_login : ℕ
multi_login = 4

abbrev pub db_error : ℕ
db_error = 5

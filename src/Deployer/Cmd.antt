-- ===== src/Deployer/Cmd.antt =====
-- StragetyDeployer/CommonStruct.h: `ECommandType`, as the int that travels.
use cpp_linux_learn.Common.{ℕ}

abbrev pub null_cmd : ℕ
null_cmd = 0

abbrev pub login : ℕ
login = 1

abbrev pub logout : ℕ
logout = 2

abbrev pub keep_alive : ℕ
keep_alive = 3

abbrev pub query : ℕ
query = 4

abbrev pub insert : ℕ
insert = 5

abbrev pub delete : ℕ
delete = 6

abbrev pub del_by_col : ℕ
del_by_col = 7

abbrev pub update : ℕ
update = 8

abbrev pub deploy : ℕ
deploy = 9

abbrev pub execute : ℕ
execute = 10

abbrev pub finish : ℕ
finish = 11

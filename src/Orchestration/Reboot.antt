-- ===== src/Orchestration/Reboot.antt =====
-- updatem/orchestration/reboot_linux.go and reboot_windows.go. What the file system and the environment give comes as arguments.
use update_manager.Base.{String, Bool, true, ◌==◌, ◌||◌, string_eq, if◌then◌else◌, List, [], ◌∷◌, ℤ}
use Prim.Native.String.{◌++◌ as cat}

-- The wait, writes of a text to a file, the system call, and the command on Windows.
pub data SystemCall : Type 0 where
  wait : ℤ → SystemCall
  write_file : String → String → SystemCall
  run_command : List String → SystemCall
  sync reboot_command : SystemCall

-- `has_proc` is false where os.Stat finds no /proc, and `env_to_string` is that of config/flags.go.
unfoldable pub get_sys_rq_files : (String → String → String) → Bool → String × String
get_sys_rq_files env_to_string has_proc =
    let proc = if has_proc then "/proc" else "/wproc" in
    (
      env_to_string "FILE_SYS_RQ" (cat proc "/sys/kernel/sysrq"),
      env_to_string "FILE_SYS_RQ_TRIGGER" (cat proc "/sysrq-trigger"),
    )

-- Reboot; `fails` says which writes have an error, and `called` whether the system call has one.
-- The calls are the oldest first, and the second part says whether there is an error.
unfoldable pub reboot :
    ℤ → (String → String → String) → Bool → (String → Bool) → Bool → List SystemCall × Bool
unfolding get_sys_rq_files
reboot timeout env_to_string has_proc fails called =
    let (file_sys_rq, file_sys_rq_trigger) = get_sys_rq_files env_to_string has_proc in
    if file_sys_rq == "" || file_sys_rq_trigger == ""
    then (wait timeout ∷ sync ∷ reboot_command ∷ [], called)
    else if fails file_sys_rq
    then (wait timeout ∷ write_file file_sys_rq "1" ∷ [], true)
    else (
      wait timeout ∷ write_file file_sys_rq "1" ∷ write_file file_sys_rq_trigger "b" ∷ [],
      fails file_sys_rq_trigger,
    )

-- Reboot on Windows; `failed` says whether the command has an error.
unfoldable pub reboot_windows : ℤ → Bool → List SystemCall × Bool
reboot_windows timeout failed =
    (wait timeout ∷ run_command ("cmd" ∷ "/C" ∷ "shutdown" ∷ "/s" ∷ []) ∷ [], failed)

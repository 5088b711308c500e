-- ===== src/Shell/Command/Names.antt =====
-- The table `commands`, with every feature of the configuration.
use innovati_os.Base.{Bool, true, false, List, [], ◌∷◌, ◌++◌}
use innovati_os.Vfs.{Str}
use innovati_os.Shell.Command.{Session, Action, Command}
use innovati_os.Shell.Command.Handlers.{
  Handlers, cmd_export, cmd_unset, cmd_alias, cmd_unalias, cmd_history, cmd_logout,
}

module _ {ℓ} {W : Type ℓ} (h : Handlers W) where
  abbrev entry : Str → (Session W → Str → Session W) → Bool → Command W
  entry name handler admin_only = record {
    name = name;
    action = Action.run handler;
    admin_only = admin_only;
  }

  -- The entries above the programs that the user has added.
  unfoldable pub first_commands : List (Command W)
  first_commands =
      entry (b'c' ∷ b'd' ∷ []) h.cmd_cd false
      ∷ entry (b'p' ∷ b'w' ∷ b'd' ∷ []) h.cmd_pwd false
      ∷ entry (b'm' ∷ b'k' ∷ b'd' ∷ b'i' ∷ b'r' ∷ []) h.cmd_mkdir false
      ∷ entry (b'p' ∷ b'r' ∷ b'o' ∷ b'm' ∷ b'o' ∷ b't' ∷ b'e' ∷ []) h.cmd_promote true
      ∷ entry (b'd' ∷ b'o' ∷ b'w' ∷ b'n' ∷ b'g' ∷ b'r' ∷ b'a' ∷ b'd' ∷ b'e' ∷ []) h.cmd_downgrade
          true
      ∷ entry (b'p' ∷ b'a' ∷ b's' ∷ b's' ∷ b'w' ∷ b'd' ∷ []) h.cmd_passwd false
      ∷ entry (b'h' ∷ b'e' ∷ b'l' ∷ b'p' ∷ []) h.cmd_help false
      ∷ entry (b'w' ∷ b'h' ∷ b'o' ∷ b'a' ∷ b'm' ∷ b'i' ∷ []) h.prog_whoami false
      ∷ entry (b'u' ∷ b's' ∷ b'e' ∷ b'r' ∷ b's' ∷ []) h.prog_users false
      ∷ entry (b'a' ∷ b'd' ∷ b'd' ∷ b'u' ∷ b's' ∷ b'e' ∷ b'r' ∷ []) h.prog_adduser true
      ∷ entry (b'c' ∷ b'l' ∷ b'e' ∷ b'a' ∷ b'r' ∷ []) h.cmd_clear false
      ∷ entry (b'u' ∷ b'n' ∷ b'a' ∷ b'm' ∷ b'e' ∷ []) h.prog_uname false
      ∷ entry (b'u' ∷ b'p' ∷ b't' ∷ b'i' ∷ b'm' ∷ b'e' ∷ []) h.prog_uptime false
      ∷ entry (b'm' ∷ b'e' ∷ b'm' ∷ b'i' ∷ b'n' ∷ b'f' ∷ b'o' ∷ []) h.prog_meminfo false
      ∷ entry (b'r' ∷ b'e' ∷ b'b' ∷ b'o' ∷ b'o' ∷ b't' ∷ []) h.cmd_reboot_confirm true
      ∷ []

  unfoldable pub last_commands : List (Command W)
  last_commands =
      entry (b'm' ∷ b'k' ∷ b'f' ∷ b's' ∷ []) h.cmd_mkfs true
      ∷ entry (b'l' ∷ b's' ∷ []) h.cmd_ls false
      ∷ entry (b'c' ∷ b'a' ∷ b't' ∷ []) h.cmd_cat false
      ∷ entry (b't' ∷ b'o' ∷ b'u' ∷ b'c' ∷ b'h' ∷ []) h.cmd_touch false
      ∷ entry (b'r' ∷ b'm' ∷ []) h.cmd_rm false
      ∷ entry (b'h' ∷ b'i' ∷ b's' ∷ b't' ∷ b'o' ∷ b'r' ∷ b'y' ∷ []) (cmd_history h) false
      ∷ entry (b'e' ∷ b'c' ∷ b'h' ∷ b'o' ∷ []) h.cmd_echo false
      ∷ entry (b'c' ∷ b'o' ∷ b'l' ∷ b'o' ∷ b'r' ∷ b's' ∷ []) h.cmd_colors false
      ∷ entry (b's' ∷ b'e' ∷ b't' ∷ []) h.cmd_set false
      ∷ entry (b'e' ∷ b'x' ∷ b'p' ∷ b'o' ∷ b'r' ∷ b't' ∷ []) (cmd_export h) false
      ∷ entry (b'u' ∷ b'n' ∷ b's' ∷ b'e' ∷ b't' ∷ []) (cmd_unset h) false
      ∷ entry (b'e' ∷ b'n' ∷ b'v' ∷ []) h.cmd_env false
      ∷ entry (b'a' ∷ b'l' ∷ b'i' ∷ b'a' ∷ b's' ∷ []) (cmd_alias h) false
      ∷ entry (b'u' ∷ b'n' ∷ b'a' ∷ b'l' ∷ b'i' ∷ b'a' ∷ b's' ∷ []) (cmd_unalias h) false
      ∷ entry (b't' ∷ b'h' ∷ b'e' ∷ b'm' ∷ b'e' ∷ []) h.cmd_theme false
      ∷ entry (b'm' ∷ b'o' ∷ b't' ∷ b'd' ∷ []) h.cmd_motd false
      ∷ entry (b'c' ∷ b'a' ∷ b'l' ∷ b'c' ∷ []) h.cmd_calc false
      ∷ record {
        name = b'r' ∷ b'e' ∷ b'p' ∷ b'e' ∷ b'a' ∷ b't' ∷ [];
        action = Action.repeats;
        admin_only = false;
      }
      ∷ entry (b's' ∷ b'y' ∷ b's' ∷ b'i' ∷ b'n' ∷ b'f' ∷ b'o' ∷ []) h.cmd_sysinfo false
      ∷ entry (b'b' ∷ b'a' ∷ b'n' ∷ b'n' ∷ b'e' ∷ b'r' ∷ []) h.cmd_banner false
      ∷ entry (b'v' ∷ b'e' ∷ b'r' ∷ b's' ∷ b'i' ∷ b'o' ∷ b'n' ∷ []) h.cmd_version false
      ∷ entry (b'l' ∷ b'o' ∷ b'g' ∷ b'o' ∷ b'u' ∷ b't' ∷ []) (cmd_logout h) false
      ∷ []

  -- `USER_PROGRAMS_LIST` is generated from the directory of the user's programs.
  unfoldable pub commands : List (Command W) → List (Command W)
  commands user_programs = first_commands ++ (user_programs ++ last_commands)

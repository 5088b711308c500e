-- ===== src/Shell/Command/Handlers.antt =====
-- The handlers of the commands that change the globals of the shell.
use innovati_os.Base.{true, if◌then◌else◌}
use innovati_os.Vfs.{Str}
use innovati_os.Shell.Number.{is_empty}
use innovati_os.Shell.Table.{Table, Reply, cmd_put, cmd_remove}
use innovati_os.Shell.History.{Listing}
use innovati_os.Shell.History
use innovati_os.Shell.Command.{Session}

-- The other handlers of the table, and what the handlers below print: a reply (with the state that is
-- saved when it is `ok`), the aliases, the history, and the text of `logout`.
pub record Handlers {ℓ} (W : Type ℓ) : Type ℓ where
  pub cmd_cd : Session W → Str → Session W
  pub cmd_pwd : Session W → Str → Session W
  pub cmd_mkdir : Session W → Str → Session W
  pub cmd_promote : Session W → Str → Session W
  pub cmd_downgrade : Session W → Str → Session W
  pub cmd_passwd : Session W → Str → Session W
  pub cmd_help : Session W → Str → Session W
  pub prog_whoami : Session W → Str → Session W
  pub prog_users : Session W → Str → Session W
  pub prog_adduser : Session W → Str → Session W
  pub cmd_clear : Session W → Str → Session W
  pub prog_uname : Session W → Str → Session W
  pub prog_uptime : Session W → Str → Session W
  pub prog_meminfo : Session W → Str → Session W
  pub cmd_reboot_confirm : Session W → Str → Session W
  pub cmd_mkfs : Session W → Str → Session W
  pub cmd_ls : Session W → Str → Session W
  pub cmd_cat : Session W → Str → Session W
  pub cmd_touch : Session W → Str → Session W
  pub cmd_rm : Session W → Str → Session W
  pub cmd_echo : Session W → Str → Session W
  pub cmd_colors : Session W → Str → Session W
  pub cmd_set : Session W → Str → Session W
  pub cmd_env : Session W → Str → Session W
  pub cmd_theme : Session W → Str → Session W
  pub cmd_motd : Session W → Str → Session W
  pub cmd_calc : Session W → Str → Session W
  pub cmd_sysinfo : Session W → Str → Session W
  pub cmd_banner : Session W → Str → Session W
  pub cmd_version : Session W → Str → Session W
  pub print_reply : Reply → Session W → W
  pub print_aliases : Session W → W
  pub print_listing : Listing → W → W
  pub print_logout : W → W

module _ {ℓ} {W : Type ℓ} (h : Handlers W) where
  abbrev pub reply_vars : Session W → Table × Reply → Session W
  reply_vars s (vars, reply) =
      let s' : Session W = record s { vars = vars } in record s' { world = h.print_reply reply s' }

  abbrev pub reply_aliases : Session W → Table × Reply → Session W
  reply_aliases s (aliases, reply) =
      let s' : Session W = record s { aliases = aliases } in
      record s' { world = h.print_reply reply s' }

  unfoldable pub cmd_export : Session W → Str → Session W
  cmd_export s args = reply_vars s (cmd_put s.vars args)

  unfoldable pub cmd_unset : Session W → Str → Session W
  cmd_unset s args = reply_vars s (cmd_remove s.vars args)

  unfoldable pub cmd_alias : Session W → Str → Session W
  cmd_alias s args =
      if is_empty args
      then record s { world = h.print_aliases s }
      else reply_aliases s (cmd_put s.aliases args)

  unfoldable pub cmd_unalias : Session W → Str → Session W
  cmd_unalias s args = reply_aliases s (cmd_remove s.aliases args)

  unfoldable pub cmd_history : Session W → Str → Session W
  cmd_history s args =
      let (history, listing) = History.cmd_history s.history args in
      record s { history = history; world = h.print_listing listing s.world }

  unfoldable pub cmd_logout : Session W → Str → Session W
  cmd_logout s args = record s { world = h.print_logout s.world; exit = true }

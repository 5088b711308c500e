-- ===== src/Shell.antt =====
-- The shell, userspace/src/shell.c, and the helpers of userspace/programs/helpers.c that it uses.
--
-- A C string is the list of its characters before the NUL, and a buffer of `max` bytes holds a
-- string of fewer than `max` characters. The configuration is the one of the repository's .config,
-- with every feature of the shell. What the commands print stands as a reply in the modules below;
-- saving the settings to the user's file is not part of the state.
pub mod Text
pub mod Number
pub mod Distance
pub mod History
pub mod Table
pub mod Expand
pub mod Theme
pub mod Settings
pub mod Command
mod Tests

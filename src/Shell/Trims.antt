-- ===== src/Shell/Trims.antt =====
-- shell/shell.c: trim_command.

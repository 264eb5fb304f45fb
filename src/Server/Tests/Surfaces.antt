-- ===== src/Server/Tests/Surfaces.antt =====
-- The surfaces that the tests launch.
use ccctl.Base.{true}
use ccctl.Server.Release.{
  TerminalAttachment, LaunchedSession, alive_server_owned, exited, reads, fails, completes,
}

abbrev pub terminal : TerminalAttachment
terminal = record { attachable = true; hint = "tmux attach" }

abbrev pub surface : LaunchedSession
surface = record {
  attachment = terminal;
  first = reads alive_server_owned;
  closing = completes;
  second = reads exited;
}

abbrev pub unclear : LaunchedSession
unclear = record {
  attachment = terminal;
  first = fails;
  closing = completes;
  second = reads exited;
}

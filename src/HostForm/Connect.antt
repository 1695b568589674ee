-- ===== src/HostForm/Connect.antt =====
-- `handleQuickConnect` of apps/ui/src/App.tsx: the address that is typed is that of a host that is stored,
-- which is connected, or the draft of a new one, which the form opens with, or none.
use tethra.Base.{Bool, List, Option, Text, codes, find?, none, some, text_eq, ◌&&◌, ◌==◌}
use tethra.HostForm.{HostSummary}
use tethra.QuickConnect.{HostDraft, parse_quick_connect}

pub data QuickConnect : Type 0 where
  connect_host : HostSummary → QuickConnect
  edit_draft : HostDraft → QuickConnect
  bad_target : Text → QuickConnect

abbrev pub has_address : HostDraft → HostSummary → Bool
has_address d h = text_eq h.username d.username && text_eq h.hostname d.hostname && h.port == d.port

abbrev pub match_or_draft : HostDraft → Option HostSummary → QuickConnect
match_or_draft d (some h) = connect_host h
match_or_draft d none = edit_draft d

abbrev pub on_draft : List HostSummary → Option HostDraft → QuickConnect
on_draft hosts none = bad_target (codes "Quick connect expects user@host or user@host:port.")
on_draft hosts (some d) = match_or_draft d (find? (has_address d) hosts)

unfoldable pub handle_quick_connect : List HostSummary → Text → QuickConnect
unfolding text_eq parse_quick_connect
handle_quick_connect hosts target = on_draft hosts (parse_quick_connect target)

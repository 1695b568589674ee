-- ===== src/Lib.antt =====
-- Verification of the client of Tethra, a terminal for remote and local sessions: the logic of apps/ui/src
-- that decides what is stored, shown or sent, less its rendering.
--
-- SyncFilter.antt models apps/ui/src/terminal/syncFilter.ts: `push` takes the bytes of the session one by
-- one through `step`; the constructors of `State` are the states of SyncClearFilter. TransferQueue.antt
-- models apps/ui/src/sftp/transferQueue.ts: the methods are functions on the runner, which return the
-- calls of the backend as effects; TransferQueue/World.antt is the step relation of a runner, its user and
-- the backend. SftpBrowser.antt models apps/ui/src/sftp/SftpBrowser.tsx, which makes the paths with Paths
-- and puts the transfers into that queue. Layout.antt models apps/ui/src/terminal/layout.ts, the tree of
-- panes that split, close and resize. Launch.antt models apps/ui/src/projects/launch.ts, the scripts typed
-- into a session to start a project; Launch/Words.antt is an independent account of how a shell splits a
-- line into words. Agents.antt models apps/ui/src/projects/agents.ts, which chooses the agent that Launch
-- starts. Blocks.antt, Blocks/Phases.antt and Blocks/Finish.antt model the tracker of
-- apps/ui/src/terminal/blocks.ts and the full-screen signals of apps/ui/src/terminal/registry.ts, which
-- the tracker resets; a phase reads the terminal through `View`, which Blocks/Rows.antt and
-- Blocks/Buffer.antt fill from the rows, as blocks.ts does; Blocks/Chrome.antt and Blocks/Screen.antt are
-- what it shows of the blocks. OpQueue.antt models the queue of registry.ts that puts the writes, through
-- the filter, and the phases in order, and Suppression.antt its input gates. Inject.antt models
-- apps/ui/src/terminal/inject.ts and the `onData` handler of registry.ts; Inject/Editor.antt is an
-- independent account of the line editor of a shell. Regex.antt holds the regular expressions of
-- ECMAScript that inject.ts and blocks.ts use. Workspace.antt and the modules State, View, Close,
-- Handover, Stale, Navigate, Saved and Restored under it model the tabs and panes of a window in
-- apps/ui/src/App.tsx, on the trees of Layout, and the messages of apps/ui/src/terminal/windows.ts;
-- Workspace/Steps.antt is what the windows come to show; a handler that waits for the backend changes the
-- workspace by the tabs and the focus of an earlier render, and a step that closes a tab or deletes counts
-- only when no tab has been opened and the focus has not moved since. HostForm.antt and the modules under
-- it model the form of a host, apps/ui/src/hosts/HostFormModal.tsx, which handleQuickConnect of App.tsx
-- opens with what QuickConnect parses; Numeral.antt is the text of its numbers. SessionOutput.antt models
-- what App.tsx does with the events of a session, `attachOutput` and its handler, with the attention of
-- Attention and the tabs of Workspace. PromptPanel.antt models the input box of a session,
-- apps/ui/src/components/PromptPanel.tsx, and QuickConnect.antt the parser of addresses in
-- apps/ui/src/components/Launcher.tsx. Attention.antt models apps/ui/src/lib/sessionAttention.ts and
-- agentNotify.ts, Paths.antt apps/ui/src/sftp/path.ts, and Prefs.antt with Prefs/Numeric.antt
-- apps/ui/src/lib/prefs.ts. Base.antt holds what they share.
--
-- A text is a list of UTF-16 code units, a byte a natural number. Numbers that the source computes with
-- fractions are those of the interface in Base/Number.antt, with an instance of hundredths. Local storage
-- is an interface in Prefs.antt. Every function is by structural recursion; a repetition of a regular
-- expression runs at most as many rounds as the text has units, which is enough since a round that
-- consumes nothing is given up, and the digits of a number are written in one round more than the number
-- itself. The source's own bounds are 64 bytes of a control sequence, 80 finished blocks, 32 submitted
-- commands, 16384 units of a transcript and 3 tries to connect again.
--
-- Not modelled: the rest of App.tsx and the components of React, the painting of the overlay of blocks,
-- xterm itself, the backend behind the calls, timers, the tmux configuration (a parameter), and the
-- crates.
pub mod Base
pub mod HostForm
pub mod Numeral
pub mod Layout
pub mod SessionOutput
pub mod SyncFilter
pub mod PromptPanel
pub mod QuickConnect
pub mod SftpBrowser
pub mod TransferQueue
pub mod Workspace
pub mod Paths
pub mod Attention
pub mod Agents
pub mod Launch
pub mod Prefs
pub mod Blocks
pub mod Suppression
pub mod OpQueue
pub mod Regex
pub mod Inject

-- ===== src/AppControl/Serve.antt =====
-- The connections of the control socket: `handle_client`, `app_ctrl_init`, `app_ctrl_worker`,
-- `app_ctrl_stop` and `app_ctrl_deinit` of board/src/app_control.c.
use hispark_soc_china.Prelude.{
  ℕ, zero, suc, Bool, true, false, ◌&&◌, Option, none, some, List, [], ◌∷◌, length, ltb, ◌==◌,
  if◌then◌else◌,
}
use hispark_soc_china.Prelude.Strings.{c_string}
use hispark_soc_china.Floats.{FloatOps}
use hispark_soc_china.AppControl.Mailbox.{Mailbox, empty_mailbox}
use hispark_soc_china.AppControl.Line.{ctrl_line_cap, read_line}
use hispark_soc_china.AppControl.Request.{handle_line}

-- The file system calls of the worker, the newest first.
pub data FileCall : Type 0 where
  make_dir unlink chmod : List ℕ → FileCall

-- What stands before the last `/`; `none` without one.
unfoldable pub before_last_slash : List ℕ → Option (List ℕ)
before_last_slash [] = none
before_last_slash (c ∷ s) = elim (before_last_slash s) [
  | some dir ↦ some (c ∷ dir)
  | none ↦ if c == b'/' then some [] else none
]

unfoldable pub make_parent : List ℕ → List FileCall → List FileCall
unfolding before_last_slash
make_parent sock_path files = elim (before_last_slash sock_path) [
  | none ↦ files
  | some dir ↦ if ltb 0 (length dir) && ltb (length dir) 108 then make_dir dir ∷ files else files
]

module _ (fl : FloatOps) (strtod : List ℕ → Option (fl.F)) where
  -- What a connection leaves: the slot, the memory from `line` on, and the replies, the oldest first.
  -- That memory is the 512 bytes of the array, which nothing sets at the start, and what lies behind it:
  -- a text without a NUL in the array is read on there.
  pub record Served : Type 0 where
    pub mailbox : Mailbox fl
    pub line : List ℕ
    pub replies : List (List ℕ)

  -- A line that is not empty: the slot and the reply, before what follows.
  unfoldable pub after_line : Mailbox fl × List ℕ → Served → Served
  after_line r later = record later { replies = r.1 ∷ later.replies }

  -- One round of the loop, behind `read_line`; `next` is what follows it.
  unfoldable pub client_round :
      (Mailbox fl → List ℕ → List (Option ℕ) → Served)
      → List ℕ
      → Mailbox fl
      → List ℕ × Option ℕ × List (Option ℕ)
      → Served
  unfolding after_line
  client_round next status m (line, none, rest) = record { mailbox = m; line = line; replies = [] }
  client_round next status m (line, some k, rest) =
      let handled = handle_line fl strtod status m (c_string line) in
      if k == 0 then next m line rest else after_line handled (next handled.0 line rest)

  -- The loop of `handle_client`: `rounds` is how often it finds `stop` unset. `evs` is what `recv`
  -- answers, byte by byte.
  unfoldable pub handle_client : ℕ → List ℕ → Mailbox fl → List ℕ → List (Option ℕ) → Served
  unfolding client_round
  handle_client zero status m line evs = record { mailbox = m; line = line; replies = [] }
  handle_client (suc rounds) status m line evs =
      client_round (handle_client rounds status) status m (read_line line evs ctrl_line_cap)

  -- `g_ctrl`; a NULL path is `none`.
  pub record CtrlState : Type 0 where
    pub stop : Bool
    pub mailbox : Mailbox fl
    pub listen_fd : Option ℕ
    pub sock_path : Option (List ℕ)
    pub files : List FileCall

  -- The state, and whether the answer is 0.
  unfoldable pub app_ctrl_init : CtrlState → Option (List ℕ) → CtrlState × Bool
  app_ctrl_init s none = (s, false)
  app_ctrl_init s (some []) = (s, false)
  app_ctrl_init s (some (c ∷ path)) = (record s { sock_path = some (c ∷ path); stop = false }, true)

  unfoldable pub app_ctrl_stop : CtrlState → CtrlState
  app_ctrl_stop s = record s { stop = true }

  unfoldable pub app_ctrl_deinit : CtrlState → CtrlState
  app_ctrl_deinit s = record s { stop = false; mailbox = empty_mailbox fl; sock_path = none }

  -- One connection: how many rounds it has, what `status_fn` writes, the memory from `line` on as the
  -- stack gives it, and what `recv` answers.
  pub record Client : Type 0 where
    pub rounds : ℕ
    pub status : List ℕ
    pub stack : List ℕ
    pub events : List (Option ℕ)

  -- The rounds of the accept loop that bring a client, until `stop` is found set.
  unfoldable pub accept_loop : Mailbox fl → List Client → Mailbox fl × List (List (List ℕ))
  unfolding handle_client
  accept_loop m [] = (m, [])
  accept_loop m (c ∷ cs) =
      let served = handle_client c.rounds c.status m c.stack c.events in
      let later = accept_loop served.mailbox cs in (later.0, served.replies ∷ later.1)

  -- `socket` (`none` if it fails), and whether `bind` and `listen` worked.
  pub record ListenAnswers : Type 0 where
    pub socket : Option ℕ
    pub bind_ok : Bool
    pub listen_ok : Bool

  -- The state when the worker returns, and the replies of each connection. It is started after an
  -- `app_ctrl_init` that worked.
  unfoldable pub app_ctrl_worker :
      CtrlState → List ℕ → ListenAnswers → List Client → CtrlState × List (List (List ℕ))
  unfolding make_parent accept_loop
  app_ctrl_worker s path a clients =
      let prepared = record s { files = unlink path ∷ make_parent path s.files } in
      let served = accept_loop s.mailbox clients in
      let ended : CtrlState × List (List (List ℕ)) = (
        record prepared {
          mailbox = served.0;
          listen_fd = none;
          files = unlink path ∷ chmod path ∷ prepared.files;
        },
        served.1,
      ) in
      elim a.socket [
        | none ↦ (prepared, [])
        | some fd ↦ if a.bind_ok && a.listen_ok then ended else (prepared, [])
      ]

-- ===== src/Cloud/Send/Laws.antt =====
-- What a command's sending returns, which requests it makes and what it learns of the model.
use delonghi_ha.Prelude.{
  ℕ, List, [], ◌∷◌, Bool, true, false, not, ◌||◌, ◌&&◌, ◌==◌, Option, none, some, ◌≡◌, refl, ◌∙◌,
  arith, map, if◌then◌else◌,
}
use delonghi_ha.Prelude.Raise.{Result, ok, raise, api, unsupported}
use delonghi_ha.Cloud.Send.{
  CmdProperty, data_request, app_data_request, Reply, status, request_exception, Attempt, attempt,
  Request, attempts_for, listed, Progress, learn, answered, request_of, send_loop, send_command,
}

abbrev pub accepted : Reply → Bool
accepted (status code) = code == 201
accepted request_exception = false

abbrev pub missing : Reply → Bool
missing (status code) = code == 404
missing request_exception = false

abbrev pub any : (Reply → Bool) → List Reply → Bool
any test [] = false
any test (r ∷ rs) = test r || any test rs

abbrev pub all : (Reply → Bool) → List Reply → Bool
all test [] = true
all test (r ∷ rs) = test r && all test rs

-- The verdict on the answers to all attempts.
abbrev pub judge : Bool → Bool → List Reply → Result Bool
judge sent failed [] = if sent then ok true else if failed then raise api else raise unsupported
judge sent failed (r ∷ rest) =
    judge (sent || accepted r) (failed || not (accepted r || missing r)) rest

judge-sent : (rs : List Reply) (failed : Bool) → judge true failed rs ≡ ok true
judge-sent [] failed = refl
judge-sent (r ∷ rs) failed = judge-sent rs (failed || not (accepted r || missing r))

judge_lem :
    (rs : List Reply) (sent failed : Bool)
    → judge sent failed rs ≡ (
        if sent || any accepted rs
        then ok true
        else if failed || not (all missing rs)
        then raise api
        else raise unsupported)
judge_lem [] sent failed = ground arith
judge_lem (r ∷ rs) sent failed =
    ground (arith, judge_lem rs (sent || accepted r) (failed || not (accepted r || missing r)))

answered_verdict :
    (r : Reply) (prop : CmdProperty) (rest : List Attempt) (p : Progress)
    (continue : Progress → Result Bool × Progress) (later : List Reply)
    → ((q : Progress) → (continue q).0 ≡ judge q.sent_any q.last_error later)
    → (answered r prop rest p continue).0
      ≡ judge (p.sent_any || accepted r) (p.last_error || not (accepted r || missing r)) later
unfolding answered
answered_verdict (status code) prop rest p continue later h = ground (
  arith,
  judge-sent later (p.last_error || not ((code == 201) || (code == 404))),
  h (record p { sent_any = true }),
  h (record p { cmd_property = learn prop p.cmd_property }),
  h (record p { last_error = true }),
)
answered_verdict request_exception prop rest p continue later h =
    ground (arith, h (record p { last_error = true }))

-- What is cached after a command, by the answer to the first shape for app_data_request.
abbrev pub settled : Reply → Option CmdProperty → Option CmdProperty
settled first (some known) = some known
settled first none = if missing first then some data_request else none

-- Which shapes are posted: all of a known property's; of an unknown one's, all unless the first
-- is accepted.
abbrev pub posted_attempts : Reply → Option CmdProperty → List Attempt
posted_attempts first (some known) = attempts_for (some known)
posted_attempts first none =
    if accepted first then attempt app_data_request true ∷ [] else attempts_for none

module _ (post : Request → Reply) (ecam : List ℕ) (now : ℕ) where
  abbrev pub answers : List Attempt → List Reply
  answers l = map (λ a. post (request_of post ecam now a)) l

  loop_verdict :
      (l : List Attempt) (p : Progress)
      → (send_loop post ecam now l p).0 ≡ judge p.sent_any p.last_error (answers l)
  unfolding send_loop
  loop_verdict [] p = refl
  loop_verdict (a ∷ rest) p = answered_verdict _ _ rest _ _ (answers rest) (loop_verdict rest)

  -- A command is accepted if the server answers 201 to one of the shapes for the model's property;
  -- it is unsupported if all are answered 404; and in all other cases it is the API error. No other
  -- exception leaves it, whatever the statuses are.
  pub send_command_outcome :
      (cached : Option CmdProperty)
      → (send_command post ecam now cached).0 ≡ (
          if any accepted (answers (attempts_for cached))
          then ok true
          else if all missing (answers (attempts_for cached))
          then raise unsupported
          else raise api)
  unfolding send_command
  send_command_outcome cached =
      loop_verdict (attempts_for cached) _
      ∙ ground (arith, judge_lem (answers (attempts_for cached)) false false)

  -- A command changes the cached property only where none was cached and the server answers 404 to
  -- app_data_request: then data_request is cached. And it posts, in this order, both shapes for
  -- data_request, or the one for app_data_request, or, where none was cached, all three, except
  -- that a 201 for app_data_request leaves the rest out.
  pub send_command-posts :
      (cached : Option CmdProperty)
      → let first = post (request_of post ecam now (attempt app_data_request true)) in
        let end = (send_command post ecam now cached).1 in
        (end.cmd_property ≡ settled first cached)
        × (end.requests ≡ map (request_of post ecam now) (posted_attempts first cached))
  unfolding send_command send_loop attempts_for listed learn answered
  send_command-posts none = (ground arith, ground arith)
  send_command-posts (some data_request) = (ground arith, ground arith)
  send_command-posts (some app_data_request) = (ground arith, ground arith)

-- ===== src/Network/Rest/Checks.antt =====
-- When the loop of `run` ends (src/network/rest_network.rs).
use rustchain.Base.{
  suc, ◌+◌, ◌≤◌, ◌≡◌, refl, ◌↔◌, ◌⊎◌, Option, some, List, [], ◌∷◌, ◌++◌, err, leb, arith, All,
  length, length-append, Bool-cases, Result-cases, inl, inr, sym, ◌∙◌, ap, subst,
}
use mathlib.Core.List.{append_assoc}
use rustchain.Data.{Error, too_many_failed_checks}
use rustchain.Network.Rest.{
  RestNetwork, Round, Transport, start, check, update_peers, try_round, run, network_check_tries,
}

-- The registration or the question for the peers has failed.
abbrev pub Fails : Round → Type 0
Fails round = (e : Error) × ((round.registered ≡ err e) ⊎ (round.peers ≡ err e))

-- Five rounds in a row fail, and one more follows.
abbrev pub Streak : List Round → Type 0
Streak rounds =
    (before : List Round) × (failing : List Round) × (next : Round) × (after : List Round) × (rounds
      ≡ before ++ (failing ++ next ∷ after))
    × (length failing ≡ 5)
    × All Fails failing

All-snoc :
    (rounds : List Round) (last : Round)
    → All Fails rounds
    → Fails last
    → All Fails (rounds ++ last ∷ [])
All-snoc [] last h f = (f, tt)
All-snoc (round ∷ rounds) last h f = (h.0, All-snoc rounds last h.1 f)

module _ {Sender : Type 0} where
  try_round_failed :
      (t : Transport Sender) (round : Round)
      → Fails round
      → (try_round t round).failed_checks ≡ suc t.failed_checks
  unfolding try_round check update_peers
  try_round_failed t round (e, inl refused) = rw (refused, try_round) refl
  try_round_failed t round (e, inr silent) = elim (Result-cases round.registered) [
    | inl (_, done) ↦ ground (arith, done, silent)
    | inr (f, refused) ↦ ground (arith, refused)
  ]

  try_round-cases :
      (t : Transport Sender) (round : Round)
      → (Fails round × ((try_round t round).failed_checks ≡ suc t.failed_checks))
        ⊎ ((try_round t round).failed_checks ≡ 0)
  unfolding try_round check update_peers
  try_round-cases t round = elim (Result-cases round.registered) [
    | inr (e, refused) ↦ inl ((e, inl refused), ground (arith, refused))
    | inl (_, done) ↦ elim (Result-cases round.peers) [
      | inr (e, silent) ↦ inl ((e, inr silent), ground (arith, done, silent))
      | inl (peers, listed) ↦ inr (ground (arith, done, listed))
    ]
  ]

  -- The loop has ended with the error of too many failures.
  abbrev pub Stopped : Transport Sender × Option Error → Type 0
  Stopped (t, result) = result ≡ some too_many_failed_checks

  failing-Stopped :
      (failing : List Round) (next : Round) (after : List Round) (t : Transport Sender)
      → 5 ≤ t.failed_checks + length failing
      → All Fails failing
      → Stopped (run t (failing ++ next ∷ after))
  unfolding run
  failing-Stopped [] next after t h f = ground arith
  failing-Stopped (round ∷ failing) next after t h f =
      elim (Bool-cases (leb network_check_tries t.failed_checks)) [
        | inl many ↦ rw (many, run) refl
        | inr few ↦
            rw (few, run)
              (failing-Stopped failing next after (try_round t round)
                (omega (arith, try_round_failed t round f.0)) f.1)
      ]

  Streak-Stopped :
      (before failing : List Round) (next : Round) (after : List Round) (t : Transport Sender)
      → length failing ≡ 5
      → All Fails failing
      → Stopped (run t (before ++ (failing ++ next ∷ after)))
  unfolding run
  Streak-Stopped [] failing next after t h f = failing-Stopped failing next after t (omega arith) f
  Streak-Stopped (round ∷ before) failing next after t h f =
      elim (Bool-cases (leb network_check_tries t.failed_checks)) [
        | inl many ↦ rw (many, run) refl
        | inr few ↦ rw (few, run) (Streak-Stopped before failing next after (try_round t round) h f)
      ]

  Stopped-Streak :
      (rounds past : List Round) (t : Transport Sender)
      → length past ≡ t.failed_checks
      → t.failed_checks ≤ 5
      → All Fails past
      → Stopped (run t rounds)
      → Streak (past ++ rounds)
  unfolding run
  Stopped-Streak [] past t at low f stopped = cc stopped
  Stopped-Streak (round ∷ rounds) past t at low f stopped =
      elim (Bool-cases (leb network_check_tries t.failed_checks)) [
        | inl many ↦ ([], past, round, rounds, refl, ground (arith, many), f)
        | inr few ↦
            let goes_on : Stopped (run (try_round t round) rounds) = ground (arith, few) in
            elim (try_round-cases t round) [
              | inl (failed, more) ↦ subst Streak (append_assoc past (round ∷ []) rounds) (
                  Stopped-Streak rounds (past ++ round ∷ []) (try_round t round)
                    (omega (arith, more, length-append past (round ∷ [])))
                    (ground (arith, few, more)) (All-snoc past round f failed) goes_on)
              | inr fresh ↦
                  let (before, failing, next, after, same, five, all) =
                    Stopped-Streak rounds [] (try_round t round) (omega arith) (omega arith) tt
                      goes_on in
                  (
                    past ++ round ∷ before,
                    failing,
                    next,
                    after,
                    ap (λ rest. past ++ round ∷ rest) same
                        ∙ sym (append_assoc past (round ∷ before) (failing ++ next ∷ after)),
                    five,
                    all,
                  )
            ]
      ]

  -- The loop of the network ends exactly when five rounds in a row fail and one more follows.
  pub run-Streak :
      (net : RestNetwork Sender) (rounds : List Round)
      → Stopped (run (start net) rounds) ↔ Streak rounds
  run-Streak net rounds = (
    Stopped-Streak rounds [] (start net) (unfold start in refl) (unfold start in omega arith) tt,
    λ (before, failing, next, after, same, five, all).
        rw same (Streak-Stopped before failing next after (start net) five all),
  )

-- ===== src/Effects/Delivery.antt =====
-- What `execute_all` of src/peer/effects.rs sends.
use rustchain.Base.{
  ℕ, zero, suc, ◌+◌, ◌≡◌, refl, sym, ap, ◌∙◌, Option, none, some, List, [], ◌∷◌, ◌++◌, Result, ok,
  err, arith, nat_eq, is_empty, Bool-cases, Option-cases, Result-cases, inl, inr,
}
use mathlib.Core.List.{append-nil, append_assoc}
use rustchain.Data.{
  BlockHash, PeerId, MessageBody, SignedTransaction, BlockStatus, added_to_mempool,
  new_block_created, RaftLogEntry, is_noop, ConsensusEffect, stage_client_transaction,
  stage_raft_entries, broadcast_client_transaction, propose_block, send_raft_append_entries,
  commit_block, rollback_block, broadcast, send_to, Error,
}
use rustchain.Effects.{
  Outgoing, to_one, Network, PeerEffects, stage_client, stage_verified, stage_pending, stage_block,
  commit_and_note, broadcast_client, broadcast_peer_message, send_peer_message,
}
use rustchain.Effects.Execute.{
  Services, done_with, stage_entries, broadcast_block_proposal, replicate_entries,
  send_append_entries, roll_back, after_staging, after_proposing, execute_effect, execute_queue,
}
use rustchain.Effects.Termination.{execute_queue-Ends}
use rustchain.Engine
use rustchain.Env.{Env}
use rustchain.Storage

abbrev pub outbox : Services → List Outgoing
outbox s = s.effects.network.outbox

-- The first list begins the second.
abbrev pub Begins : List Outgoing → List Outgoing → Type 0
Begins xs zs = (ys : List Outgoing) × (zs ≡ xs ++ ys)

Begins-same : (xs zs : List Outgoing) → zs ≡ xs → Begins xs zs
Begins-same xs zs e = ([], e ∙ sym (append-nil xs))

Begins-trans : (xs ys zs : List Outgoing) → Begins xs ys → Begins ys zs → Begins xs zs
Begins-trans xs ys zs (us, e) (vs, f) =
    (us ++ vs, f ∙ ap (λ (l : List Outgoing). l ++ vs) e ∙ append_assoc xs us vs)

module _ (env : Env) where
  stage_entries-outbox :
      (entries : List RaftLogEntry) (s : Services)
      → outbox (stage_entries env s entries).0 ≡ outbox s
  unfolding stage_entries
  stage_entries-outbox [] s = refl
  stage_entries-outbox (entry ∷ entries) s =
      let taken = Engine.take_pending_raft_block s.consensus entry.block_hash in
      let staged = stage_pending env s.effects entry taken.1 in
      let same : staged.0.network ≡ s.effects.network =
        unfold stage_pending stage_block in ground arith in
      elim (Bool-cases (is_noop entry)) [
        | inl noop ↦ rw (noop, stage_entries) (stage_entries-outbox entries s)
        | inr block ↦ elim (Result-cases staged.1) [
          | inr (e, failed) ↦
              rw (block, failed, stage_entries) (ap (λ (n : Network). n.outbox) same)
          | inl (_, done) ↦
              rw (block, done, stage_entries)
                (stage_entries-outbox entries (record { effects = staged.0; consensus = taken.0 })
                  ∙ ap (λ (n : Network). n.outbox) same)
        ]
      ]

  after_staging-outbox :
      (s : Services) (done : PeerEffects × Result Error BlockStatus)
      → outbox (after_staging env s done).0 ≡ done.0.network.outbox
  unfolding after_staging
  after_staging-outbox s (p, err e) = refl
  after_staging-outbox s (p, ok added_to_mempool) = refl
  after_staging-outbox s (p, ok (new_block_created h)) = refl

  after_proposing-outbox :
      (s : Services) (h : BlockHash) (done : PeerEffects × Result Error (Option (List PeerId)))
      → outbox (after_proposing env s h done).0 ≡ done.0.network.outbox
  unfolding after_proposing
  after_proposing-outbox s h (p, err e) = refl
  after_proposing-outbox s h (p, ok none) = refl
  after_proposing-outbox s h (p, ok (some peers)) = refl

  done_with-outbox :
      {A : Type 0} (s : Services) (done : PeerEffects × Result Error A)
      → outbox (done_with s.consensus done).0 ≡ done.0.network.outbox
  done_with-outbox s (p, ok a) = refl
  done_with-outbox s (p, err e) = refl

  stage_client-outbox :
      (p : PeerEffects) (tx : SignedTransaction)
      → (stage_client env p tx).0.network.outbox ≡ p.network.outbox
  unfolding stage_client stage_verified
  stage_client-outbox p tx = ground arith

  commit_and_note-outbox :
      (p : PeerEffects) (h : BlockHash)
      → (commit_and_note env p h).0.network.outbox ≡ p.network.outbox
  unfolding commit_and_note
  commit_and_note-outbox p h = ground arith

  roll_back-outbox :
      (p : PeerEffects) (h : BlockHash) → (roll_back env p h).network.outbox ≡ p.network.outbox
  unfolding roll_back
  roll_back-outbox p h = ground arith

  proposal-Begins :
      (p : PeerEffects) (h : BlockHash)
      → Begins p.network.outbox (broadcast_block_proposal env p h).0.network.outbox
  unfolding broadcast_block_proposal broadcast_peer_message
  proposal-Begins p h = elim (Bool-cases (is_empty p.network.known_peers)) [
    | inl alone ↦ rw (alone, broadcast_block_proposal) (Begins-same _ _ refl)
    | inr others ↦ elim (Option-cases (Storage.get_uncommited_block p.block_keeper h)) [
      | inl absent ↦ rw (others, absent, broadcast_block_proposal) (Begins-same _ _ refl)
      | inr (b, there) ↦ rw (others, there, broadcast_block_proposal) (_, refl)
    ]
  ]

  append_entries-Begins :
      (p : PeerEffects) (to term index prev : ℕ) (entries : List RaftLogEntry) (commit : ℕ)
      → Begins p.network.outbox
          (send_append_entries env p to term index prev entries commit).0.network.outbox
  unfolding send_append_entries send_peer_message
  append_entries-Begins p to term index prev entries commit =
      elim (Result-cases (replicate_entries env p entries)) [
        | inr (e, failed) ↦ rw (failed, send_append_entries) (Begins-same _ _ refl)
        | inl (sent, done) ↦ rw (done, send_append_entries) (_, refl)
      ]

  -- No effect takes back what has been sent.
  execute_effect-Begins :
      (s : Services) (x : ConsensusEffect) → Begins (outbox s) (outbox (execute_effect env s x).0)
  unfolding execute_effect broadcast_client broadcast_peer_message send_peer_message
  execute_effect-Begins s (stage_client_transaction tx) =
      Begins-same _ _
        (after_staging-outbox s (stage_client env s.effects tx) ∙ stage_client-outbox s.effects tx)
  execute_effect-Begins s (stage_raft_entries entries) =
      Begins-same _ _ (stage_entries-outbox entries s)
  execute_effect-Begins s (broadcast_client_transaction tx) = (_, refl)
  execute_effect-Begins s (propose_block h) =
      let (ys, e) = proposal-Begins s.effects h in
      (ys, after_proposing-outbox s h (broadcast_block_proposal env s.effects h) ∙ e)
  execute_effect-Begins s (send_raft_append_entries to term index prev entries commit) =
      let (ys, e) = append_entries-Begins s.effects to term index prev entries commit in
      (
        ys,
        done_with-outbox s (send_append_entries env s.effects to term index prev entries commit)
            ∙ e,
      )
  execute_effect-Begins s (commit_block h) =
      Begins-same _ _
        (done_with-outbox s (commit_and_note env s.effects h) ∙ commit_and_note-outbox s.effects h)
  execute_effect-Begins s (rollback_block h) = Begins-same _ _ (roll_back-outbox s.effects h)
  execute_effect-Begins s (broadcast body) = (_, refl)
  execute_effect-Begins s (send_to to body) = (_, refl)

  execute_queue-Begins :
      (fuel : ℕ) (s : Services) (queue : List ConsensusEffect) (errors : List Error) (t : Services)
      (found : List Error)
      → execute_queue env fuel s queue errors ≡ some (t, found)
      → Begins (outbox s) (outbox t)
  unfolding execute_queue
  execute_queue-Begins zero s queue errors t found h = cc
  execute_queue-Begins (suc fuel) s [] errors t found h = Begins-same _ _ (ground (arith, h))
  execute_queue-Begins (suc fuel) s (x ∷ queue) errors t found h =
      let next = (execute_effect env s x).0 in
      Begins-trans (outbox s) (outbox next) (outbox t) (execute_effect-Begins s x)
        (elim (Result-cases (execute_effect env s x).1) [
          | inl (more, done) ↦
              execute_queue-Begins fuel next (queue ++ more) errors t found
                (rw (done, execute_queue) at h)
          | inr (e, failed) ↦
              execute_queue-Begins fuel next queue (errors ++ e ∷ []) t found
                (rw (failed, execute_queue) at h)
        ])

-- A message to a peer has been handed to the network.
abbrev pub Delivered : PeerId → MessageBody → List Outgoing → Type 0
Delivered to body sent =
    (before : List Outgoing) × (from : PeerId) × Begins
      (before ++ to_one (record { from = from; to = to; body = body }) ∷ []) sent

module _ (env : Env) (to : PeerId) (body : MessageBody) where
  execute_queue-Delivered :
      (fuel : ℕ) (s : Services) (xs ys : List ConsensusEffect) (errors : List Error) (t : Services)
      (found : List Error)
      → execute_queue env fuel s (xs ++ send_to to body ∷ ys) errors ≡ some (t, found)
      → Delivered to body (outbox t)
  unfolding execute_queue execute_effect send_peer_message
  execute_queue-Delivered zero s xs ys errors t found h = absurd (ground (arith, h))
  execute_queue-Delivered (suc fuel) s [] ys errors t found h =
      let next = (execute_effect env s (send_to to body)).0 in
      (outbox s, s.effects.peer_id, execute_queue-Begins env fuel next (ys ++ []) errors t found h)
  execute_queue-Delivered (suc fuel) s (x ∷ xs) ys errors t found h =
      let next = (execute_effect env s x).0 in
      elim (Result-cases (execute_effect env s x).1) [
        | inl (more, done) ↦
            execute_queue-Delivered fuel next xs (ys ++ more) errors t found
              (rw append_assoc at (rw (done, execute_queue) at h))
        | inr (e, failed) ↦
            execute_queue-Delivered fuel next xs ys (errors ++ e ∷ []) t found
              (rw (failed, execute_queue) at h)
      ]

  -- A message that stands in the queue is handed to the network, whatever the effects before it do
  -- and whether or not they fail, and the queue ends.
  pub send_to-Delivered :
      (s : Services) (xs ys : List ConsensusEffect) (errors : List Error)
      → (fuel : ℕ) × (t : Services) × (found : List Error) × (execute_queue env fuel s
            (xs ++ send_to to body ∷ ys)
            errors
          ≡ some (t, found))
        × Delivered to body (outbox t)
  send_to-Delivered s xs ys errors =
      let queue = xs ++ send_to to body ∷ ys in
      let (fuel, (t, found), ends) = execute_queue-Ends env s queue errors in
      let ended : execute_queue env (fuel + 0) s queue errors ≡ some (t, found) = ends 0 in
      (fuel + 0, t, found, ended, execute_queue-Delivered (fuel + 0) s xs ys errors t found ended)

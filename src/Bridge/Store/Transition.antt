-- ===== src/Bridge/Store/Transition.antt =====
-- TransitionMessage: the life of a message.
use forge_grid.Prelude.{
  String, ◌≡◌, ◌≢◌, refl, sym, ap, ◌∙◌, some, arith, ◌==◌, eq_iff, Bool-cases, Option-cases, inl,
  inr, ◌⊎◌,
}
use forge_grid.Dict.{Dict, lookup, insert, lookup-insert}
use forge_grid.Dict.Keys.{insert-IsDistinct}
use forge_grid.Disk.{FileSystem}
use forge_grid.Bridge.Models.{
  Time, AgentMessage, MessageStatus, StoreJson, status_pending, status_acknowledged,
  status_completed, status_failed,
}
use forge_grid.Bridge.Store.{
  Store, StoreError, Result, ok, err, not_found, forbidden, invalid_action, io_error, save,
  apply_action, commit_message, transition_message,
}
use forge_grid.Bridge.Store.Add.{IsIndexed}

-- The edges between the statuses of a message: what the three actions may do.
infix 40 ◌⟶◌
pub data ◌⟶◌ (s t : MessageStatus) : Type 0 where
  stay : t ≡ s → s ⟶ t
  acknowledge : s ≡ status_pending → t ≡ status_acknowledged → s ⟶ t
  complete : s ≢ status_completed → s ≢ status_failed → t ≡ status_completed → s ⟶ t
  fail : s ≢ status_completed → s ≢ status_failed → t ≡ status_failed → s ⟶ t

abbrev pub IsFinal : AgentMessage → Type 0
IsFinal m = (m.status ≡ status_completed) ⊎ (m.status ≡ status_failed)

-- What no action changes.
pub record SameEnvelope (m n : AgentMessage) : Type 0 where
  pub id : m.id ≡ n.id
  pub sender : m.sender ≡ n.sender
  pub recipient : m.recipient ≡ n.recipient
  pub task_id : m.task_id ≡ n.task_id
  pub type : m.type ≡ n.type
  pub body : m.body ≡ n.body
  pub idempotency_key : m.idempotency_key ≡ n.idempotency_key
  pub created_at : m.created_at ≡ n.created_at
  pub expires_at : m.expires_at ≡ n.expires_at

pub SameEnvelope-refl : (m : AgentMessage) → SameEnvelope m m
SameEnvelope-refl m = ground arith

apply_action-SameEnvelope :
    (now : Time) (action result : String) (m n : AgentMessage)
    → apply_action now action result m ≡ some n
    → SameEnvelope n m
unfolding apply_action
apply_action-SameEnvelope now action result m n h = ground arith

completed-ne-pending : status_completed ≢ status_pending
completed-ne-pending = ground (arith, eq_iff status_completed status_pending)

failed-ne-pending : status_failed ≢ status_pending
failed-ne-pending = ground (arith, eq_iff status_failed status_pending)

-- A completed or failed message is left as it is, whatever the action.
apply_action_final :
    (now : Time) (action result : String) (m n : AgentMessage)
    → IsFinal m
    → apply_action now action result m ≡ some n
    → n ≡ m
unfolding apply_action
apply_action_final now action result m n f h = ground (
  arith,
  eq_iff m.status status_completed,
  eq_iff m.status status_failed,
  eq_iff m.status status_pending,
  completed-ne-pending,
  failed-ne-pending,
)

apply_action_edge :
    (now : Time) (action result : String) (m n : AgentMessage)
    → apply_action now action result m ≡ some n
    → (n.status ≡ m.status)
      ⊎ ((m.status ≡ status_pending) × (n.status ≡ status_acknowledged))
      ⊎ ((m.status ≢ status_completed) × (m.status ≢ status_failed) × (n.status ≡ status_completed))
      ⊎ ((m.status ≢ status_completed) × (m.status ≢ status_failed) × (n.status ≡ status_failed))
unfolding apply_action
apply_action_edge now action result m n h = ground (
  arith,
  eq_iff m.status status_completed,
  eq_iff m.status status_failed,
  eq_iff m.status status_pending,
)

apply_action-⟶ :
    (now : Time) (action result : String) (m n : AgentMessage)
    → apply_action now action result m ≡ some n
    → m.status ⟶ n.status
apply_action-⟶ now action result m n h = elim (apply_action_edge now action result m n h) [
  | inl same ↦ stay same
  | inr (inl (p, q)) ↦ acknowledge p q
  | inr (inr (inl (p, q, r))) ↦ complete p q r
  | inr (inr (inr (p, q, r))) ↦ fail p q r
]

-- Replacing a stored message by one with the same envelope.
replace-IsIndexed :
    (id : String) (m n : AgentMessage) (messages : Dict AgentMessage)
    → IsIndexed messages
    → lookup id messages ≡ some m
    → SameEnvelope n m
    → IsIndexed (insert id n messages)
replace-IsIndexed id m n messages w found same = record {
  distinct = insert-IsDistinct id n messages w.distinct;
  at_id = λ k p at_k.
      ground (
        arith,
        w.at_id k p,
        w.at_id id m,
        lookup-insert id k n messages,
        eq_iff id k,
        at_k,
        same.id,
      );
  one_key = λ j k p q at_j at_k r.
      let (p', pj, ps, pi) = earlier j p at_j in
      let (q', qk, qs, qi) = earlier k q at_k in
      w.one_key j k p' q' pj qk (ps ∙ r.0 ∙ sym qs, pi ∙ r.1 ∙ sym qi, λ e. r.2 (sym pi ∙ e));
}
  where
    earlier :
        (k : String) (p : AgentMessage)
        → lookup k (insert id n messages) ≡ some p
        → (p' : AgentMessage) × (lookup k messages ≡ some p')
          × (p'.sender ≡ p.sender)
          × (p'.idempotency_key ≡ p.idempotency_key)
    earlier k p at_k = elim (Bool-cases (id == k)) [
      | inl here ↦ (
        m,
        ground (arith, eq_iff id k),
        ground (arith, lookup-insert id k n messages, same.sender),
        ground (arith, lookup-insert id k n messages, same.idempotency_key),
      )
      | inr other ↦ (p, ground (arith, lookup-insert id k n messages), refl, refl)
    ]

-- The errors of the first tests, which leave the store alone.
pub data IsRefusal : Result AgentMessage → Type 0 where
  absent : IsRefusal (err not_found)
  foreign : IsRefusal (err forbidden)
  unknown : IsRefusal (err invalid_action)

pub IsRefusal-ne-ok : (r : Result AgentMessage) (m : AgentMessage) → IsRefusal r → r ≢ ok m
IsRefusal-ne-ok _ m absent = cc
IsRefusal-ne-ok _ m foreign = cc
IsRefusal-ne-ok _ m unknown = cc

IsRefusal-ne-io_error : (r : Result AgentMessage) → IsRefusal r → r ≢ err io_error
IsRefusal-ne-io_error _ absent = cc
IsRefusal-ne-io_error _ foreign = cc
IsRefusal-ne-io_error _ unknown = cc

module _ {D : Type 0} (os : FileSystem D) (json : StoreJson) where
  pub record IsAccepted (id recipient action result : String) (now : Time) (s : Store D)
      : Type 0 where
    pub before : AgentMessage
    pub after : AgentMessage
    pub found : lookup id s.messages ≡ some before
    pub addressed : before.recipient ≡ recipient
    pub applied : apply_action now action result before ≡ some after
    pub stored :
        transition_message os json id recipient action result now s
        ≡ commit_message os json id after s

  pub transition_message_cases :
      (id recipient action result : String) (now : Time) (s : Store D)
      → ((r : Result AgentMessage) × IsRefusal r
          × (transition_message os json id recipient action result now s ≡ (s, r)))
        ⊎ IsAccepted id recipient action result now s
  unfolding transition_message
  transition_message_cases id recipient action result now s =
      elim (Option-cases (lookup id s.messages)) [
        | inl missed ↦ inl (err not_found, absent, rw (missed, transition_message))
        | inr (m, hit) ↦ elim (Bool-cases (m.recipient == recipient)) [
          | inr other ↦ inl (err forbidden, foreign, rw (hit, transition_message) (rw other))
          | inl same ↦ elim (Option-cases (apply_action now action result m)) [
            | inl bad ↦
                inl (err invalid_action, unknown, rw (hit, transition_message) (rw same (rw bad)))
            | inr (n, good) ↦ inr (record {
              before = m;
              after = n;
              found = hit;
              addressed = (eq_iff m.recipient recipient).0 same;
              applied = good;
              stored = rw (hit, transition_message) (rw same (rw good));
            })
          ]
        ]
      ]

  pub commit_message_messages :
      (id : String) (msg : AgentMessage) (s : Store D)
      → (commit_message os json id msg s).0.messages ≡ insert id msg s.messages
  unfolding commit_message save
  commit_message_messages id msg s = refl

  -- What one call makes of the message at `k`: the envelope stays, the status moves along an edge,
  -- and nothing moves but the addressed message, at the word of its recipient.
  pub transition_message_step :
      (id recipient action result : String) (now : Time) (s : Store D) (k : String)
      (m : AgentMessage)
      → lookup k s.messages ≡ some m
      → (n : AgentMessage) × (lookup k
            (transition_message os json id recipient action result now s).0.messages
          ≡ some n)
        × SameEnvelope n m
        × (m.status ⟶ n.status)
        × ((n ≡ m) ⊎ ((k ≡ id) × (m.recipient ≡ recipient)))
        × (IsFinal m → n ≡ m)
  transition_message_step id recipient action result now s k m at_k =
      elim (transition_message_cases id recipient action result now s) [
        | inl (r, _, refused) ↦
            (m, rw refused at_k, SameEnvelope-refl m, stay refl, inl refl, λ _. refl)
        | inr a ↦ elim (Bool-cases (id == k)) [
          | inr other ↦ (
            m,
            rw a.stored (rw commit_message_messages (rw lookup-insert (rw other at_k))),
            SameEnvelope-refl m,
            stay refl,
            inl refl,
            λ _. refl,
          )
          | inl same ↦
              let e : id ≡ k = (eq_iff id k).0 same in
              let f : m ≡ a.before = ground (arith, at_k, a.found, e) in
              (
                a.after,
                rw a.stored (rw commit_message_messages (rw lookup-insert (rw same))),
                rw f (apply_action-SameEnvelope now action result a.before a.after a.applied),
                rw f (apply_action-⟶ now action result a.before a.after a.applied),
                inr (sym e, rw f a.addressed),
                rw f (λ h. apply_action_final now action result a.before a.after h a.applied),
              )
        ]
      ]

  -- The errors of the guards leave the store as it was; the only other one is that of the save.
  pub transition_message_error :
      (id recipient action result : String) (now : Time) (s : Store D) (e : StoreError)
      → (transition_message os json id recipient action result now s).1 ≡ err e
      → ((e ≢ io_error) × ((transition_message os json id recipient action result now s).0 ≡ s))
        ⊎ ((e ≡ io_error) × IsAccepted id recipient action result now s)
  unfolding commit_message
  transition_message_error id recipient action result now s e h =
      elim (transition_message_cases id recipient action result now s) [
        | inl (r, refusal, refused) ↦ inl (
          λ io. IsRefusal-ne-io_error r refusal (ap (λ p. p.1) (sym refused) ∙ h ∙ ap err io),
          ap (λ p. p.0) refused,
        )
        | inr a ↦
            inr (ground (arith, h, ap (λ (p : Store D × Result AgentMessage). p.1) a.stored), a)
      ]

  -- The store stays well formed.
  pub transition_message-IsIndexed :
      (id recipient action result : String) (now : Time) (s : Store D)
      → IsIndexed s.messages
      → IsIndexed (transition_message os json id recipient action result now s).0.messages
  transition_message-IsIndexed id recipient action result now s w =
      elim (transition_message_cases id recipient action result now s) [
        | inl (r, _, refused) ↦ rw refused w
        | inr a ↦ rw a.stored (
            rw commit_message_messages (
              replace-IsIndexed id a.before a.after s.messages w a.found
                (apply_action-SameEnvelope now action result a.before a.after a.applied)))
      ]

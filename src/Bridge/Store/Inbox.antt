-- ===== src/Bridge/Store/Inbox.antt =====
-- What GetInbox lists.
use mathlib.Core.List.{Memᴰ}
use forge_grid.Prelude.{
  ◌<◌, String, ◌≡◌, ◌≢◌, refl, sym, ap, ◌∙◌, true, some, List, [], ◌∷◌, arith, eq_iff, Bool-cases,
  inl, inr, ◌⊎◌, ◌↔◌,
}
use forge_grid.Dict.{lookup, insert, values, lookup-insert}
use forge_grid.Dict.Keys.{lookup_of_mem-values, mem-values_of_lookup}
use forge_grid.Disk.{FileSystem}
use forge_grid.Bridge.Models.{
  Time, AgentMessage, StoreJson, status_pending, status_acknowledged, status_completed,
  status_failed,
}
use forge_grid.Bridge.Store.{
  Store, Result, ok, is_open, collect, get_inbox, apply_action, transition_message,
}
use forge_grid.Bridge.Store.Add.{IsIndexed}
use forge_grid.Bridge.Store.Transition.{
  IsFinal, transition_message-IsIndexed, IsRefusal-ne-ok, transition_message_cases,
  commit_message_messages,
}

-- A message that its recipient has still to deal with.
pub record IsWaiting (recipient : String) (now : Time) (m : AgentMessage) : Type 0 where
  pub addressed : m.recipient ≡ recipient
  pub alive : now < m.expires_at
  pub unfinished : (m.status ≡ status_pending) ⊎ (m.status ≡ status_acknowledged)

is_open_iff :
    (recipient : String) (now : Time) (m : AgentMessage)
    → (is_open recipient now m ≡ true) ↔ IsWaiting recipient now m
is_open_iff recipient now m = (
  λ h. record {
    addressed = ground (arith, eq_iff m.recipient recipient);
    alive = ground arith;
    unfinished =
        ground (arith, eq_iff m.status status_pending, eq_iff m.status status_acknowledged);
  },
  λ w. ground (
    arith,
    w,
    eq_iff m.recipient recipient,
    eq_iff m.status status_pending,
    eq_iff m.status status_acknowledged,
  ),
)

mem-collect :
    (recipient : String) (now : Time) (m : AgentMessage) (ms : List AgentMessage)
    → Memᴰ m (collect recipient now ms)
    → Memᴰ m ms × (is_open recipient now m ≡ true)
unfolding collect
mem-collect recipient now m [] t = elim t [ ]
mem-collect recipient now m (n ∷ ms) t = elim (Bool-cases (is_open recipient now n)) [
  | inr shut ↦ let (mem, o) = mem-collect recipient now m ms (rw shut at t) in (Memᴰ.tail mem, o)
  | inl open' ↦ first_or_later n open' (mem-collect recipient now m ms) (rw open' at t)
]
  where
    first_or_later :
        (n : AgentMessage)
        → is_open recipient now n ≡ true
        → (Memᴰ m (collect recipient now ms) → Memᴰ m ms × (is_open recipient now m ≡ true))
        → Memᴰ m (n ∷ collect recipient now ms)
        → Memᴰ m (n ∷ ms) × (is_open recipient now m ≡ true)
    first_or_later n o later (Memᴰ.head e) = (Memᴰ.head e, rw e o)
    first_or_later n o later (Memᴰ.tail t) = let (mem, p) = later t in (Memᴰ.tail mem, p)

collect-mem :
    (recipient : String) (now : Time) (m : AgentMessage) (ms : List AgentMessage)
    → Memᴰ m ms
    → is_open recipient now m ≡ true
    → Memᴰ m (collect recipient now ms)
unfolding collect
collect-mem recipient now m [] t o = elim t [ ]
collect-mem recipient now m (n ∷ ms) (Memᴰ.head e) o = rw (← e) (rw o (Memᴰ.head refl))
collect-mem recipient now m (n ∷ ms) (Memᴰ.tail t) o = elim (Bool-cases (is_open recipient now n)) [
  | inl open' ↦ rw open' (Memᴰ.tail (collect-mem recipient now m ms t o))
  | inr shut ↦ rw shut (collect-mem recipient now m ms t o)
]

module _ {D : Type 0} where
  -- The inbox holds exactly the stored messages that wait for the recipient.
  pub get_inbox_iff :
      (recipient : String) (now : Time) (s : Store D) (m : AgentMessage)
      → IsIndexed s.messages
      → Memᴰ m (get_inbox recipient now s)
        ↔ ((lookup m.id s.messages ≡ some m) × IsWaiting recipient now m)
  unfolding get_inbox
  get_inbox_iff recipient now s m w = (
    λ t.
        let (mem, o) = mem-collect recipient now m (values s.messages) t in
        let (k, at_k) = lookup_of_mem-values m s.messages w.distinct mem in
        (
          ap (λ (i : String). lookup i s.messages) (w.at_id k m at_k) ∙ at_k,
          (is_open_iff recipient now m).0 o,
        ),
    λ h.
        collect-mem recipient now m (values s.messages) (mem-values_of_lookup m.id m s.messages h.0)
          ((is_open_iff recipient now m).1 h.1),
  )

waiting-not-IsFinal :
    (recipient : String) (now : Time) (m : AgentMessage) → IsWaiting recipient now m → ¬ IsFinal m
waiting-not-IsFinal recipient now m w f = ground (
  arith,
  w.unfinished,
  eq_iff status_completed status_pending,
  eq_iff status_completed status_acknowledged,
  eq_iff status_failed status_pending,
  eq_iff status_failed status_acknowledged,
)

finish-IsFinal :
    (now : Time) (action result : String) (m n : AgentMessage)
    → (action ≡ "complete") ⊎ (action ≡ "fail")
    → apply_action now action result m ≡ some n
    → IsFinal n
unfolding apply_action
finish-IsFinal now action result m n a h = ground (
  arith,
  eq_iff action "acknowledge",
  eq_iff action "complete",
  eq_iff action "fail",
  eq_iff "complete" "acknowledge",
  eq_iff "fail" "acknowledge",
  eq_iff "fail" "complete",
  eq_iff m.status status_completed,
  eq_iff m.status status_failed,
)

module _ {D : Type 0} (os : FileSystem D) (json : StoreJson) where
  -- A message that was completed or failed is in no inbox, whoever asks and whenever.
  pub get_inbox-finished :
      (id recipient action result : String) (now : Time) (s : Store D) (done : AgentMessage)
      → IsIndexed s.messages
      → (action ≡ "complete") ⊎ (action ≡ "fail")
      → (transition_message os json id recipient action result now s).1 ≡ ok done
      → (reader : String) (later : Time) (m : AgentMessage)
      → Memᴰ m
          (get_inbox reader later (transition_message os json id recipient action result now s).0)
      → m.id ≢ id
  get_inbox-finished id recipient action result now s done w a h reader later m t same =
      elim (transition_message_cases os json id recipient action result now s) [
        | inl (r, refusal, refused) ↦
            IsRefusal-ne-ok r done refusal (ap (λ p. p.1) (sym refused) ∙ h)
        | inr acc ↦
            let (stored, waits) =
              (get_inbox_iff reader later
                  (transition_message os json id recipient action result now s).0 m
                  (transition_message-IsIndexed os json id recipient action result now s w)).0
                t in
            let at_id : lookup m.id (insert id acc.after s.messages) ≡ some m =
              sym (
                ap (λ (p : Store D × Result AgentMessage). lookup m.id p.0.messages) acc.stored
                ∙ ap (lookup m.id) (commit_message_messages os json id acc.after s))
              ∙ stored in
            let here : acc.after ≡ m =
              ground
                (arith, lookup-insert id m.id acc.after s.messages, eq_iff id m.id, at_id, same) in
            waiting-not-IsFinal reader later m waits
              (rw (← here) (finish-IsFinal now action result acc.before acc.after a acc.applied))
      ]

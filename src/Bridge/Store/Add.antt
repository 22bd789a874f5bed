-- ===== src/Bridge/Store/Add.antt =====
-- AddMessage and its idempotency key.
use mathlib.Core.List.{Memᴰ}
use forge_grid.Prelude.{
  ◌&&◌, String, ◌≡◌, ◌≢◌, refl, sym, ap, ◌∙◌, true, none, some, List, [], ◌∷◌, arith, ◌==◌, eq_iff,
  eq_refl, Bool-cases, Option-cases, inl, inr, ◌⊎◌,
}
use forge_grid.Dict.{Dict, lookup, insert, values, lookup-insert}
use forge_grid.Dict.Keys.{IsDistinct, insert-IsDistinct, lookup_of_mem-values, mem-values_of_lookup}
use forge_grid.Disk.{FileSystem}
use forge_grid.Bridge.Models.{AgentMessage, StoreJson}
use forge_grid.Bridge.Store.{Store, find_existing, save, store_message, add_message}

-- Two messages that a sender gave one idempotency key.
abbrev pub IsRepeat : AgentMessage → AgentMessage → Type 0
IsRepeat m n =
    (m.sender ≡ n.sender) × (m.idempotency_key ≡ n.idempotency_key) × (m.idempotency_key ≢ "")

-- Every message stands at its id, and a sender's idempotency key belongs to one message.
pub record IsIndexed (messages : Dict AgentMessage) : Type 0 where
  pub distinct : IsDistinct messages
  pub at_id : (k : String) (m : AgentMessage) → lookup k messages ≡ some m → m.id ≡ k
  pub one_key :
      (j k : String) (m n : AgentMessage)
      → lookup j messages ≡ some m
      → lookup k messages ≡ some n
      → IsRepeat m n
      → j ≡ k

-- What the loop finds is stored, and has the sender and the key.
find_existing_sound :
    (sender key : String) (ms : List AgentMessage) (m : AgentMessage)
    → find_existing sender key ms ≡ some m
    → Memᴰ m ms × (m.sender ≡ sender) × (m.idempotency_key ≡ key)
unfolding find_existing
find_existing_sound sender key [] m h = absurd (ground arith)
find_existing_sound sender key (n ∷ ms) m h =
    elim (Bool-cases (n.sender == sender && n.idempotency_key == key)) [
      | inl found ↦
          let same : n ≡ m = ground arith in
          (
            Memᴰ.head (sym same),
            rw (← same) (ground (arith, eq_iff n.sender sender)),
            rw (← same) (ground (arith, eq_iff n.idempotency_key key)),
          )
      | inr other ↦
          let (mem, same, key') = find_existing_sound sender key ms m (ground arith) in
          (Memᴰ.tail mem, same, key')
    ]

-- A stored message with the sender and the key is not missed.
find_existing_complete :
    (sender key : String) (ms : List AgentMessage) (m : AgentMessage)
    → Memᴰ m ms
    → m.sender ≡ sender
    → m.idempotency_key ≡ key
    → find_existing sender key ms ≢ none
unfolding find_existing
find_existing_complete sender key [] m t p q h = elim t [ ]
find_existing_complete sender key (n ∷ ms) m (Memᴰ.head e) p q h =
    ground (arith, eq_iff n.sender sender, eq_iff n.idempotency_key key)
find_existing_complete sender key (n ∷ ms) m (Memᴰ.tail t) p q h =
    find_existing_complete sender key ms m t p q (ground arith)

-- In a well-formed store the loop finds the one message of the sender with the key.
find_existing_exact :
    (messages : Dict AgentMessage) (k : String) (m : AgentMessage)
    → IsIndexed messages
    → lookup k messages ≡ some m
    → m.idempotency_key ≢ ""
    → find_existing m.sender m.idempotency_key (values messages) ≡ some m
find_existing_exact messages k m w found keyed =
    elim (Option-cases (find_existing m.sender m.idempotency_key (values messages))) [
      | inl missed ↦ absurd (
          find_existing_complete m.sender m.idempotency_key (values messages) m
            (mem-values_of_lookup k m messages found) refl refl missed)
      | inr (n, hit) ↦
          let (mem, p, q) =
            find_existing_sound m.sender m.idempotency_key (values messages) n hit in
          let (j, at_j) = lookup_of_mem-values n messages w.distinct mem in
          let same : k ≡ j = w.one_key k j m n found at_j (sym p, sym q, keyed) in
          hit ∙ sym at_j ∙ ap (λ (i : String). lookup i messages) (sym same) ∙ found
    ]

-- No stored message is one that `msg` repeats.
abbrev pub IsFresh : AgentMessage → Dict AgentMessage → Type 0
IsFresh msg messages =
    (k : String) (n : AgentMessage) → lookup k messages ≡ some n → ¬ IsRepeat msg n

IsFresh-of_find_existing :
    (msg : AgentMessage) (messages : Dict AgentMessage)
    → find_existing msg.sender msg.idempotency_key (values messages) ≡ none
    → IsFresh msg messages
IsFresh-of_find_existing msg messages missed k n found (p, q, _) =
    find_existing_complete msg.sender msg.idempotency_key (values messages) n
      (mem-values_of_lookup k n messages found) (sym p) (sym q) missed

-- Putting a message with a fresh key at its own id.
insert-IsIndexed :
    (msg : AgentMessage) (messages : Dict AgentMessage)
    → IsIndexed messages
    → IsFresh msg messages
    → IsIndexed (insert msg.id msg messages)
insert-IsIndexed msg messages w fresh = record {
  distinct = insert-IsDistinct msg.id msg messages w.distinct;
  at_id = λ k m found.
      ground (arith, w.at_id k m, lookup-insert msg.id k msg messages, eq_iff msg.id k, found);
  one_key = λ j k m n found_m found_n (p, q, keyed). ground (
    arith,
    w.one_key j k m n,
    fresh k n,
    fresh j m,
    lookup-insert msg.id j msg messages,
    lookup-insert msg.id k msg messages,
    eq_iff msg.id j,
    eq_iff msg.id k,
    found_m,
    found_n,
  );
}

module _ {D : Type 0} (os : FileSystem D) (json : StoreJson) where
  -- A repeated request changes nothing and is answered with the message that the first one stored.
  pub add_message_repeat :
      (s : Store D) (k : String) (m msg : AgentMessage)
      → IsIndexed s.messages
      → lookup k s.messages ≡ some m
      → IsRepeat msg m
      → add_message os json msg s ≡ (s, m, true)
  unfolding add_message
  add_message_repeat s k m msg w found (p, q, keyed) =
      let hit = find_existing_exact s.messages k m w found (rw (← q) keyed) in
      ground (arith, eq_iff msg.idempotency_key "", hit)

  -- Either a repeat is found, or no stored message is repeated and the message goes to the store.
  add_message_cases :
      (s : Store D) (msg : AgentMessage)
      → ((n : AgentMessage) × (find_existing msg.sender msg.idempotency_key (values s.messages)
            ≡ some n)
          × (msg.idempotency_key ≢ "")
          × (add_message os json msg s ≡ (s, n, true)))
        ⊎ ((add_message os json msg s ≡ store_message os json msg s) × IsFresh msg s.messages)
  unfolding add_message
  add_message_cases s msg = elim (Bool-cases (msg.idempotency_key == "")) [
    | inl plain ↦ inr (rw plain, λ k n _ r. r.2 ((eq_iff msg.idempotency_key "").0 plain))
    | inr keyed ↦
        elim (Option-cases (find_existing msg.sender msg.idempotency_key (values s.messages))) [
          | inl missed ↦ inr (rw keyed (rw missed), IsFresh-of_find_existing msg s.messages missed)
          | inr (n, hit) ↦
              inl (n, hit, ground (arith, eq_iff msg.idempotency_key "", keyed), rw keyed (rw hit))
        ]
  ]

  store_message_unused :
      (s : Store D) (msg : AgentMessage)
      → lookup msg.id s.messages ≡ none
      → (store_message os json msg s).0.messages ≡ insert msg.id msg s.messages
  unfolding store_message save
  store_message_unused s msg unused = rw (unused, store_message)

  store_message-IsIndexed :
      (s : Store D) (msg : AgentMessage)
      → IsIndexed s.messages
      → IsFresh msg s.messages
      → IsIndexed (store_message os json msg s).0.messages
  unfolding store_message save
  store_message-IsIndexed s msg w fresh = elim (Option-cases (lookup msg.id s.messages)) [
    | inl unused ↦ rw (unused, store_message) (insert-IsIndexed msg s.messages w fresh)
    | inr (n, used) ↦ rw (used, store_message) w
  ]

  -- The store stays well formed: AddMessage never stores a second message for a sender's key.
  pub add_message-IsIndexed :
      (s : Store D) (msg : AgentMessage)
      → IsIndexed s.messages
      → IsIndexed (add_message os json msg s).0.messages
  add_message-IsIndexed s msg w = elim (add_message_cases s msg) [
    | inl (n, _, _, repeated) ↦ rw repeated w
    | inr (stored, fresh) ↦ rw stored (store_message-IsIndexed s msg w fresh)
  ]

  -- A request that repeats no stored message, under an unused id, is stored.
  pub add_message_new :
      (s : Store D) (msg : AgentMessage)
      → IsIndexed s.messages
      → IsFresh msg s.messages
      → lookup msg.id s.messages ≡ none
      → (add_message os json msg s).0.messages ≡ insert msg.id msg s.messages
  add_message_new s msg w fresh unused = elim (add_message_cases s msg) [
    | inr (stored, _) ↦ rw stored (store_message_unused s msg unused)
    | inl (n, hit, keyed, _) ↦
        let (mem, p, q) =
          find_existing_sound msg.sender msg.idempotency_key (values s.messages) n hit in
        let (j, at_j) = lookup_of_mem-values n s.messages w.distinct mem in
        absurd (fresh j n at_j (sym p, sym q, keyed))
  ]

  -- In a well-formed store, a message of the sender and the idempotency key, which is not empty, of a
  -- new message that was just added is answered with that message, which the first attempt left in
  -- memory, and as a success, also where the first attempt reported that saving it had failed.
  pub add_message_retry :
      (s : Store D) (msg again : AgentMessage)
      → IsIndexed s.messages
      → IsFresh msg s.messages
      → lookup msg.id s.messages ≡ none
      → IsRepeat again msg
      → let first = (add_message os json msg s).0 in
        add_message os json again first ≡ (first, msg, true)
  add_message_retry s msg again w fresh unused rep =
      add_message_repeat (add_message os json msg s).0 msg.id msg again
        (add_message-IsIndexed s msg w)
        (rw (add_message_new s msg w fresh unused) (rw lookup-insert (rw eq_refl))) rep

  -- AddMessage leaves every stored message where and as it is.
  pub add_message_keeps :
      (s : Store D) (msg : AgentMessage) (k : String) (m : AgentMessage)
      → lookup k s.messages ≡ some m
      → lookup k (add_message os json msg s).0.messages ≡ some m
  add_message_keeps s msg k m at_k = elim (add_message_cases s msg) [
    | inl (n, _, _, repeated) ↦ rw repeated at_k
    | inr (stored, _) ↦ elim (Option-cases (lookup msg.id s.messages)) [
      | inr (n, used) ↦ rw stored (unfold store_message in (rw (used, store_message) at_k))
      | inl unused ↦ rw stored (
          rw (store_message_unused s msg unused)
            (rw lookup-insert (ground (arith, at_k, unused, eq_iff msg.id k))))
    ]
  ]

  -- The message that is returned is the sender's, also where it is an older one.
  pub add_message_sender :
      (s : Store D) (msg : AgentMessage)
      → ((add_message os json msg s).1.sender ≡ msg.sender)
        × ((add_message os json msg s).1.idempotency_key ≡ msg.idempotency_key)
  add_message_sender s msg = elim (add_message_cases s msg) [
    | inl (n, hit, _, repeated) ↦
        let (_, p, q) =
          find_existing_sound msg.sender msg.idempotency_key (values s.messages) n hit in
        rw repeated (p, q)
    | inr (stored, _) ↦ rw stored (elim (Option-cases (lookup msg.id s.messages)) [
      | inr (n, used) ↦ unfold store_message in (rw (used, store_message) (refl, refl))
      | inl unused ↦ unfold store_message in (rw (unused, store_message) (refl, refl))
    ])
  ]

-- ===== src/Bridge/Store/Persist.antt =====
-- What `save` leaves on the disk, and what `load` makes of it.
use forge_grid.Prelude.{
  String, ◌≡◌, ◌≢◌, refl, ◌∙◌, inl, inr, true, Option, none, some, arith, eq_iff, Bool-cases,
  false≢true,
}
use forge_grid.Dict.{Dict, lookup}
use forge_grid.Disk.{FileSystem}
use forge_grid.Disk.Atomic.{tmp_of, atomic_write_old_or_new, atomic_write_done, atomic_write_other}
use forge_grid.Bridge.Models.{AgentMessage, AgentRegistration, StoreJson, reindented}
use forge_grid.Bridge.Store.{
  Store, ok, agents_file, messages_file, save_file, save_disk, save, load_messages, load, new_store,
}

agents-ne-messages : agents_file ≢ messages_file
agents-ne-messages = ground (arith, eq_iff agents_file messages_file)

messages-ne-agents : messages_file ≢ agents_file
messages-ne-agents = ground (arith, eq_iff messages_file agents_file)

tmp_agents-ne-messages : tmp_of agents_file ≢ messages_file
tmp_agents-ne-messages = ground (arith, eq_iff (tmp_of agents_file) messages_file)

tmp_messages-ne-agents : tmp_of messages_file ≢ agents_file
tmp_messages-ne-agents = ground (arith, eq_iff (tmp_of messages_file) agents_file)

module _ {D : Type 0} (os : FileSystem D) where
  -- The file has what it had, or all of the new text.
  pub data IsWhole (path : String) (text : Option String) (d d' : D) : Type 0 where
    old : os.read_file path d' ≡ os.read_file path d → IsWhole path text d d'
    new : (t : String) → text ≡ some t → os.read_file path d' ≡ some t → IsWhole path text d d'

module _ {D : Type 0} (os : FileSystem D) (json : StoreJson) where
  save_file-IsWhole :
      (path : String) (text : Option String) (d : D)
      → IsWhole os path text d (save_file os json path text d).0
  unfolding save_file
  save_file-IsWhole path none d = old refl
  save_file-IsWhole path (some t) d = elim (atomic_write_old_or_new os path t d) [
    | inl same ↦ old same
    | inr whole ↦ new t refl whole
  ]

  save_file_other :
      (path other : String) (text : Option String) (d : D)
      → path ≢ other
      → tmp_of path ≢ other
      → os.read_file other (save_file os json path text d).0 ≡ os.read_file other d
  unfolding save_file
  save_file_other path other none d p q = refl
  save_file_other path other (some t) d p q = atomic_write_other os path t other d p q

  save_file_done :
      (path : String) (text : Option String) (d : D)
      → (save_file os json path text d).1 ≡ true
      → (t : String) × (text ≡ some t)
        × (os.read_file path (save_file os json path text d).0 ≡ some t)
  unfolding save_file
  save_file_done path none d h = absurd (false≢true h)
  save_file_done path (some t) d h = (t, refl, atomic_write_done os path t d h)

  IsWhole-after :
      (path : String) (text : Option String) (d d' d'' : D)
      → os.read_file path d'' ≡ os.read_file path d'
      → IsWhole os path text d d'
      → IsWhole os path text d d''
  IsWhole-after path text d d' d'' e (old h) = old (e ∙ h)
  IsWhole-after path text d d' d'' e (new t p h) = new t p (e ∙ h)

  IsWhole-before :
      (path : String) (text : Option String) (d d' d'' : D)
      → os.read_file path d' ≡ os.read_file path d
      → IsWhole os path text d' d''
      → IsWhole os path text d d''
  IsWhole-before path text d d' d'' e (old h) = old (h ∙ e)
  IsWhole-before path text d d' d'' e (new t p h) = new t p h

  -- Whatever call fails on the way, neither file of the store is left half written.
  pub save-IsWhole :
      (s : Store D)
      → IsWhole os agents_file (json.marshal_agents s.agents) s.disk (save os json s).0.disk
        × IsWhole os messages_file (json.marshal_messages s.messages) s.disk (save os json s).0.disk
  unfolding save save_disk
  save-IsWhole s =
      let text = json.marshal_agents s.agents in
      let d' = (save_file os json agents_file text s.disk).0 in
      let first = save_file-IsWhole agents_file text s.disk in
      let kept =
        save_file_other agents_file messages_file text s.disk agents-ne-messages
          tmp_agents-ne-messages in
      elim (Bool-cases (save_file os json agents_file text s.disk).1) [
        | inr failed ↦ rw failed (first, old kept)
        | inl saved ↦
            let text' = json.marshal_messages s.messages in
            let kept' =
              save_file_other messages_file agents_file text' d' messages-ne-agents
                tmp_messages-ne-agents in
            rw saved (
              IsWhole-after agents_file text s.disk d' (save_file os json messages_file text' d').0
                  kept' first,
              IsWhole-before messages_file text' s.disk d'
                  (save_file os json messages_file text' d').0 kept
                  (save_file-IsWhole messages_file text' d'),
            )
      ]

  save_disk_done :
      (agents : Dict AgentRegistration) (messages : Dict AgentMessage) (d : D)
      → (save_disk os json agents messages d).1 ≡ true
      → let d' = (save_disk os json agents messages d).0 in
        (t : String) × (u : String) × (json.marshal_agents agents ≡ some t)
        × (json.marshal_messages messages ≡ some u)
        × (os.read_file agents_file d' ≡ some t)
        × (os.read_file messages_file d' ≡ some u)
  unfolding save_disk
  save_disk_done agents messages d h =
      elim (Bool-cases (save_file os json agents_file (json.marshal_agents agents) d).1) [
        | inr failed ↦ absurd (false≢true ((rw failed at h)))
        | inl saved ↦
            let d' = (save_file os json agents_file (json.marshal_agents agents) d).0 in
            let text' = json.marshal_messages messages in
            let (t, et, rt) = save_file_done agents_file (json.marshal_agents agents) d saved in
            let (u, eu, ru) = save_file_done messages_file text' d' ((rw saved at h)) in
            let kept =
              save_file_other messages_file agents_file text' d' messages-ne-agents
                tmp_messages-ne-agents in
            rw saved (t, u, et, eu, kept ∙ rt, ru)
      ]

  -- What a start finds of a store: the same agents, and the same messages, whose results are indented.
  pub record IsFound (s t : Store D) : Type 0 where
    pub same_disk : t.disk ≡ (save os json s).0.disk
    pub same_agents : (k : String) → lookup k t.agents ≡ lookup k s.agents
    pub same_messages :
        (k : String) → lookup k t.messages ≡ reindented json.indent (lookup k s.messages)

  -- A store that was saved without an error is found by the next NewStore: each name has its agent,
  -- and each id its message, with the result as it is indented in the file.
  pub new_store-save :
      (s : Store D)
      → (save os json s).1 ≡ true
      → (t : Store D) × (new_store os json true true (save os json s).0.disk ≡ ok t) × IsFound s t
  unfolding save new_store load
  new_store-save s h =
      let (t, u, et, eu, rt, ru) = save_disk_done s.agents s.messages s.disk h in
      let (agents, ea, la) = json.agents_round_trip s.agents t et in
      let (messages, em, lm) = json.messages_round_trip s.messages u eu in
      (
        record { agents = agents; messages = messages; disk = (save os json s).0.disk },
        rw (rt, load) (rw ea (rw (ru, load_messages) (rw em refl))),
        record { same_disk = refl; same_agents = la; same_messages = lm },
      )

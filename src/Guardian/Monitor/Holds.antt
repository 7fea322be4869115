-- ===== src/Guardian/Monitor/Holds.antt =====
-- bins/fairypam-agent-guardian/src/monitor.rs: what the monitor releases.
use fairypam_rust_agent.Base.{
  Bool, true, Option, none, some, List, [], ◌∷◌, ◌≡◌, ◌↔◌, inl, inr, refl, sym, ◌∙◌, arith, all,
  map, Bytes, beq, beq_iff, Some, if◌then◌else◌, ap, Bool-cases, false,
}
use fairypam_rust_agent.Base.Sets.{get, put, get-put, values, collect_map}
use fairypam_rust_agent.Base.Maps.{is_ascending, put-is_ascending, ascending-other}
use fairypam_rust_agent.Guardian.Protocol.{PhysicalHold, action_id}
use fairypam_rust_agent.Guardian.Monitor.{GuardianMonitor, entry, pending_holds, release_holds}

abbrev Entries : Type 0
Entries = List (Bytes × PhysicalHold)

-- Each hold stands under its own action.
abbrev is_coherent : Entries → Bool
is_coherent entries = all (λ e. beq e.0 (action_id e.1)) entries

put-is_coherent :
    (hold : PhysicalHold) (m : Entries)
    → is_coherent m ≡ true
    → is_coherent (put (action_id hold) hold m) ≡ true
unfolding put
put-is_coherent hold [] h = ground (arith, beq_iff (action_id hold) (action_id hold))
put-is_coherent hold ((j, w) ∷ m) h =
    ground (arith, put-is_coherent hold m, beq_iff (action_id hold) (action_id hold))

abbrev IsIndex : Entries → Type 0
IsIndex m = (is_coherent m ≡ true) × (is_ascending m ≡ true)

collect-IsIndex :
    (holds : List PhysicalHold) (m : Entries)
    → IsIndex m
    → IsIndex (collect_map m (map entry holds))
unfolding collect_map
collect-IsIndex [] m h = h
collect-IsIndex (hold ∷ holds) m (coherent, ascending) =
    collect-IsIndex holds (put (action_id hold) hold m)
      (put-is_coherent hold m coherent, put-is_ascending (action_id hold) hold m ascending)

-- The last hold of an action in a list, or else another one.
abbrev pub latest_hold : Bytes → List PhysicalHold → Option PhysicalHold → Option PhysicalHold
latest_hold b [] otherwise = otherwise
latest_hold b (hold ∷ holds) otherwise =
    latest_hold b holds (if beq b (action_id hold) then some hold else otherwise)

-- The hold of an action that is due: the pending intent's, or else the committed one.
abbrev pub due : Bytes → GuardianMonitor → Option PhysicalHold
due b m = latest_hold b (pending_holds m) (latest_hold b m.committed_holds none)

get-collect :
    (b : Bytes) (holds : List PhysicalHold) (m : Entries)
    → get b (collect_map m (map entry holds)) ≡ latest_hold b holds (get b m)
unfolding collect_map
get-collect b [] m = refl
get-collect b (hold ∷ holds) m =
    get-collect b holds (put (action_id hold) hold m)
    ∙ ap (latest_hold b holds) (get-put (action_id hold) b hold m)

key-of :
    (hold : PhysicalHold) (j : Bytes) (w : PhysicalHold)
    → beq j (action_id w) ≡ true
    → w ≡ hold
    → beq (action_id hold) j ≡ true
key-of hold j w h e =
    (beq_iff (action_id hold) j).1 (sym ((beq_iff j (action_id w)).0 h ∙ ap action_id e))

value-get :
    (hold : PhysicalHold) (m : Entries)
    → IsIndex m
    → Some (λ h. h ≡ hold) (values m)
    → get (action_id hold) m ≡ some hold
value-get hold [] h k = absurd k
value-get hold ((j, w) ∷ m) (coherent, ascending) (inl e) =
    rw (key-of hold j w (ground arith) e) (ap some e)
value-get hold ((j, w) ∷ m) (coherent, ascending) (inr k) =
    let found = value-get hold m (ground arith) k in
    rw (ascending-other j (action_id hold) hold w m ascending found) found

get-first :
    (j : Bytes) (w : PhysicalHold) (m : Entries) (b : Bytes) (hold : PhysicalHold)
    → beq b j ≡ true
    → get b ((j, w) ∷ m) ≡ some hold
    → w ≡ hold
get-first j w m b hold e h = ground arith

get-behind :
    (j : Bytes) (w : PhysicalHold) (m : Entries) (b : Bytes) (hold : PhysicalHold)
    → beq b j ≡ false
    → get b ((j, w) ∷ m) ≡ some hold
    → get b m ≡ some hold
get-behind j w m b hold e h = ground arith

get-value :
    (b : Bytes) (hold : PhysicalHold) (m : Entries)
    → get b m ≡ some hold
    → Some (λ h. h ≡ hold) (values m)
get-value b hold [] h = absurd (cc)
get-value b hold ((j, w) ∷ m) h = elim (Bool-cases (beq b j)) [
  | inl e ↦ inl (get-first j w m b hold e h)
  | inr e ↦ inr (get-value b hold m (get-behind j w m b hold e h))
]

-- A hold is among those that the monitor releases exactly when it is the one that is due for its
-- action: the last one of the pending intent, or, if that has none for it, the last committed one.
pub release_holds-due :
    (hold : PhysicalHold) (m : GuardianMonitor)
    → Some (λ h. h ≡ hold) (release_holds m) ↔ (due (action_id hold) m ≡ some hold)
unfolding release_holds
release_holds-due hold m =
    let committed = collect_map [] (map entry m.committed_holds) in
    let all_holds = collect_map committed (map entry (pending_holds m)) in
    let index =
      collect-IsIndex (pending_holds m) committed
        (collect-IsIndex m.committed_holds [] (refl, refl)) in
    let looked_up : get (action_id hold) all_holds ≡ due (action_id hold) m =
      get-collect (action_id hold) (pending_holds m) committed
      ∙ ap (latest_hold (action_id hold) (pending_holds m))
          (get-collect (action_id hold) m.committed_holds []) in
    (
      λ k. sym looked_up ∙ value-get hold all_holds index k,
      λ e. get-value (action_id hold) hold all_holds (looked_up ∙ e),
    )

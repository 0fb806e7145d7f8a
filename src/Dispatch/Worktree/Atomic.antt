-- ===== src/Dispatch/Worktree/Atomic.antt =====
-- `reserve` of src/forgemaster/dispatch/worktree.py when it gives no worktree.
use forgemaster.Prelude.{String, ◌≡◌, refl, Bool, true, false, List, arith, Bool-cases, inl, inr}
use forgemaster.Roadmap.Rows.{
  Feature, Store, Result, returned, value_error, key_error, resolve_feature,
}
use forgemaster.Dispatch.Ports.{
  Reservation, Probe, Stamp, Race, PortResult, ok, pool_exhausted, default_range,
  reserve as reserve_port,
}
use forgemaster.Dispatch.Worktree.{
  Tables, Checkout, Reserved, reserved, git_raises, with_port, reserve_for, reserve, ref_of,
  purpose_of,
}

-- the call has answered with a worktree
abbrev pub is_reserved : Reserved → Bool
is_reserved (reserved path port branch) = true
is_reserved _ = false

module _ (probe : Probe) (stamp : Stamp) (race : Race) where
  with_port_store :
      (c : Checkout) (feat : Feature) (db : Store) (out : PortResult Reservation × List Reservation)
      → is_reserved (with_port probe stamp race c feat db out).0 ≡ false
      → (with_port probe stamp race c feat db out).1.store ≡ db
  with_port_store c feat db (ok row, rows) h = absurd (ground (arith, h))
  with_port_store c feat db (pool_exhausted, rows) h = refl

  reserve_for_store :
      (project feature : String) (c : Checkout) (t : Tables) (r : Result Feature)
      → is_reserved (reserve_for probe stamp race project feature c t r).0 ≡ false
      → (reserve_for probe stamp race project feature c t r).1.store ≡ t.store
  reserve_for_store project feature c t (returned feat) h = elim (Bool-cases (git_raises c)) [
    | inl bad ↦ ground arith
    | inr good ↦
        let out =
          reserve_port default_range probe stamp race project (purpose_of feature) t.reservations in
        let kept = with_port_store c feat t.store out in ground (arith, kept, h)
  ]
  reserve_for_store project feature c t value_error h = refl
  reserve_for_store project feature c t key_error h = refl

  -- When `reserve` gives no worktree, because the feature is unknown, git refuses or no port is left,
  -- no feature is activated and no worktree is recorded.
  pub reserve_store :
      (project feature : String) (c : Checkout) (t : Tables)
      → is_reserved (reserve probe stamp race project feature c t).0 ≡ false
      → (reserve probe stamp race project feature c t).1.store ≡ t.store
  unfolding reserve
  reserve_store project feature c t h =
      reserve_for_store project feature c t (resolve_feature t.store (ref_of project feature)) h

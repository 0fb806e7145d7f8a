-- ===== src/Examples/Ports.antt =====
-- A pool of three ports with one reservation, for the broker of src/forgemaster/dispatch/ports.py.
use forgemaster.Prelude.{◌≡◌, refl, some, List, [], ◌∷◌, ◌==◌, if◌then◌else◌}
use forgemaster.Dispatch.Ports.{
  Reservation, Sighting, Probe, PortRange, ok, pool_exhausted, Stamp, Race, free_port, reserve,
}
use forgemaster.Dispatch.Ports.Reserve.{IsUnique}
use forgemaster.Dispatch.Ports.Answer.{IsAnswer, reserve-IsAnswer}

abbrev pool : PortRange
pool = record { lo = 5170; hi = 5172 }

abbrev first : Reservation
first = record {
  id = "a";
  project = "shop";
  purpose = "worktree:cart";
  port = 5170;
  created_at = "2026-01-01";
}

abbrev rows : List Reservation
rows = first ∷ []

-- something outside the table listens on 5171
abbrev sonde : Probe
sonde = some (λ port. if port == 5171 then Sighting.taken else Sighting.os_error)

abbrev all_busy : Probe
all_busy = some (λ port. Sighting.taken)

abbrev stamp : Stamp
stamp = record { new_id = "b"; now = "2026-01-02" }

abbrev quiet : Race
quiet k table = table

finds_third : free_port rows pool sonde ≡ ok 5172
unfolding free_port
finds_third = refl

finds_nothing : free_port rows pool all_busy ≡ pool_exhausted
unfolding free_port
finds_nothing = refl

rows-IsUnique : IsUnique rows
rows-IsUnique = (tt, tt)

reserve-IsAnswer_example :
    IsUnique (reserve pool sonde stamp quiet "shop" "worktree:pay" rows).1
    × IsAnswer pool sonde stamp quiet "shop" "worktree:pay" 5 rows
        (reserve pool sonde stamp quiet "shop" "worktree:pay" rows)
reserve-IsAnswer_example =
    reserve-IsAnswer pool sonde stamp quiet "shop" "worktree:pay" rows (λ k table u. u)
      rows-IsUnique

second : Reservation
second = record {
  id = "b";
  project = "shop";
  purpose = "worktree:pay";
  port = 5172;
  created_at = "2026-01-02";
}

reserves_third :
    reserve pool sonde stamp quiet "shop" "worktree:pay" rows ≡ (ok second, first ∷ second ∷ [])
unfolding reserve second
reserves_third = refl

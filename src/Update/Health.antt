-- ===== src/Update/Health.antt =====
-- `_wait_health` and `_unservable_detail` of src/forgemaster/apply_update.py: the wait for an instance.
--
-- Time is in milliseconds. What the instance answers to a request sent at a time, how long the request
-- lasts and whether the process probed has ended are arguments. The loop runs on fuel.
pub mod Total
use forgemaster.Prelude.{
  ℕ, zero, suc, ◌+◌, String, Bool, true, false, not, ◌&&◌, Option, none, some, ◌==◌, ltb,
  if◌then◌else◌,
}
use forgemaster.Update.{Json, bool, obj, lookup, Members}

-- A response by its status, an HTTPError by its code and its body (nothing when it is not JSON), or no
-- connection.
pub data Answer : Type 0 where
  status : ℕ → Answer
  http_error : ℕ → Option Json → Answer
  no_connection : Answer

-- `ready` is there and false
abbrev pub says_unready : Option Json → Bool
says_unready (some (bool false)) = true
says_unready _ = false

abbrev pub is_unservable_body : Option Json → Bool
is_unservable_body (some (obj ms)) = says_unready (lookup "ready" ms)
is_unservable_body _ = false

-- An answer that this program wrote, and no other's 503.
unfoldable pub is_unservable : ℕ → Option Json → Bool
is_unservable code body = code == 503 && is_unservable_body body

pub data Health : Type 0 where
  ready unservable ended silent out_of_fuel : Health

pub record Probe : Type 0 where
  pub answers : ℕ → Answer
  pub lasts : ℕ → ℕ
  pub has_ended : ℕ → Bool

-- What an attempt decides at once, or how long it makes the loop wait.
pub data Step : Type 0 where
  decided : Health → Step
  wait : ℕ → Step

unfoldable pub attempt : Answer → ℕ → Step
unfolding is_unservable
attempt (status code) lasted = if code == 200 then decided ready else wait lasted
attempt (http_error code body) lasted =
    if is_unservable code body then decided unservable else wait (lasted + 500)
attempt no_connection lasted = wait (lasted + 500)

abbrev pub next : Step → (ℕ → Health) → Health
next (decided h) loop = h
next (wait ms) loop = loop ms

-- `while time.monotonic() < deadline:`
unfoldable pub wait_health : ℕ → Probe → ℕ → ℕ → Health
unfolding attempt
wait_health zero p deadline now = out_of_fuel
wait_health (suc fuel) p deadline now =
    let loop : ℕ → Health = λ ms. wait_health fuel p deadline (now + ms) in
    if ltb now deadline
    then if p.has_ended now then ended else next (attempt (p.answers now) (p.lasts now)) loop
    else silent

-- ===== src/Transport/Lost.antt =====
-- When an entity is lost: the test on seconds and microseconds against the time in microseconds.
use libgmbus.Base.{ℕ, ◌+◌, ◌*◌, ◌<◌, Bool, List, [], ◌∷◌, ltb, if◌then◌else◌}
use libgmbus.Address.{Address}
use libgmbus.Transport.{Transport, TimeVal, Entity}

-- What g_get_current_time gives: fewer than a million microseconds.
abbrev pub IsNormal : TimeVal → Type 0
IsNormal t = t.tv_usec < 1000000

abbrev pub micros : TimeVal → ℕ
micros t = t.tv_sec * 1000000 + t.tv_usec

-- Nothing was heard of an entity for more than `limit` microseconds.
abbrev pub is_silent : TimeVal → ℕ → Address × Entity → Bool
is_silent now limit e = ltb (micros e.1.last_hello + limit) (micros now)

abbrev pub select : {A : Type 0} → (A → Bool) → List A → List A
select test [] = []
select test (x ∷ xs) = if test x then x ∷ select test xs else select test xs

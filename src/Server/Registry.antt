-- ===== src/Server/Registry.antt =====
-- broadcastTest.cpp: `con_list`, the `std::map` from a connection handle to the client's id. A handle
-- is a number (two handles are one key when they own the same connection, `std::owner_less`).
use Prim.Native.String.{String}
use aggregation.Base.{ℕ, ◌≡◌, refl, Option, none, some, List, [], ◌∷◌, arith, ◌==◌, if◌then◌else◌}

abbrev pub ConList : Type 0
ConList = List (ℕ × String)

-- `m_connections.find (h)`; `none` is `m_connections.end ()`.
unfoldable pub find : ℕ → ConList → Option String
find h [] = none
find h ((k, v) ∷ m) = if k == h then some v else find h m

-- `m_connections[h] = v`
unfoldable pub assign : ℕ → String → ConList → ConList
assign h v [] = (h, v) ∷ []
assign h v ((k, w) ∷ m) = if k == h then (h, v) ∷ m else (k, w) ∷ assign h v m

-- `m_connections.erase (h)`
pub erase : ℕ → ConList → ConList
erase h [] = []
erase h ((k, w) ∷ m) = if k == h then erase h m else (k, w) ∷ erase h m

-- `m_connections[h]` as an expression: a key that is missing is inserted with an empty string.
pub subscript : ℕ → ConList → String × ConList
unfolding find assign
subscript h m = elim (find h m) [ some v ↦ (v, m) | none ↦ ("", assign h "" m) ]

pub find-assign :
    (h j : ℕ) (v : String) (m : ConList)
    → find j (assign h v m) ≡ (if h == j then some v else find j m)
unfolding find assign
find-assign h j v [] = refl
find-assign h j v ((k, w) ∷ m) = ground (arith, find-assign h j v m)

pub find-erase : (h j : ℕ) (m : ConList) → find j (erase h m) ≡ (if h == j then none else find j m)
unfolding find erase
find-erase h j [] = ground arith
find-erase h j ((k, w) ∷ m) = ground (arith, find-erase h j m)

-- After the expression the key is there, whatever the map held, and no other key has changed.
pub find-subscript :
    (h j : ℕ) (m : ConList)
    → find j (subscript h m).1 ≡ (if h == j then some (subscript h m).0 else find j m)
unfolding subscript
find-subscript h j m = ground (arith, find-assign h j "" m)

pub subscript_missing : (h : ℕ) (m : ConList) → find h m ≡ none → (subscript h m).0 ≡ ""
unfolding subscript
subscript_missing h m e = rw (e, subscript)

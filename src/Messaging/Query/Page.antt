-- ===== src/Messaging/Query/Page.antt =====
-- crates/pim-messaging/src/storage.rs: a page of a history.
use proximity_internet_mesh.Base.{ℕ, ◌+◌, ◌≡◌, Bool, false, List, [], ◌∷◌, if◌then◌else◌}
use proximity_internet_mesh.Base.Map.{Map}
use proximity_internet_mesh.Messaging.Storage.{MessageRecord}
use proximity_internet_mesh.Messaging.Query.{newer}

abbrev pub count : (MessageRecord → Bool) → List MessageRecord → ℕ
count q [] = 0
count q (m ∷ ms) = (if q m then 1 else 0) + count q ms

-- No message is newer than the one before it.
abbrev pub IsNewestFirst : List MessageRecord → Type 0
IsNewestFirst [] = Unit {0}
IsNewestFirst (x ∷ []) = Unit {0}
IsNewestFirst (x ∷ y ∷ rest) = (newer y x ≡ false) × IsNewestFirst (y ∷ rest)

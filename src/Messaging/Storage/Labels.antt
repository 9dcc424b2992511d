-- ===== src/Messaging/Storage/Labels.antt =====
-- crates/pim-messaging/src/storage.rs: the texts in which the columns `direction` and `status` are kept.
use proximity_internet_mesh.Base.{
  ◌≡◌, refl, Bytes, Option, none, some, [], ◌∷◌, ◌==◌, bytes_eq, if◌then◌else◌,
}
use proximity_internet_mesh.Messaging.Storage.{MessageDirection, MessageStatus}

unfoldable direction_as_str : MessageDirection → Bytes
direction_as_str MessageDirection.sent = 115 ∷ 101 ∷ 110 ∷ 116 ∷ []
direction_as_str MessageDirection.received = 114 ∷ 101 ∷ 99 ∷ 101 ∷ 105 ∷ 118 ∷ 101 ∷ 100 ∷ []

-- The error is `none`, here and below.
unfoldable direction_from_str : Bytes → Option MessageDirection
unfolding direction_as_str
direction_from_str s =
    if s == direction_as_str MessageDirection.sent
    then some MessageDirection.sent
    else if s == direction_as_str MessageDirection.received
    then some MessageDirection.received
    else none

unfoldable status_as_str : MessageStatus → Bytes
status_as_str MessageStatus.pending = 112 ∷ 101 ∷ 110 ∷ 100 ∷ 105 ∷ 110 ∷ 103 ∷ []
status_as_str MessageStatus.sent = 115 ∷ 101 ∷ 110 ∷ 116 ∷ []
status_as_str MessageStatus.delivered = 100 ∷ 101 ∷ 108 ∷ 105 ∷ 118 ∷ 101 ∷ 114 ∷ 101 ∷ 100 ∷ []
status_as_str MessageStatus.read = 114 ∷ 101 ∷ 97 ∷ 100 ∷ []
status_as_str MessageStatus.failed = 102 ∷ 97 ∷ 105 ∷ 108 ∷ 101 ∷ 100 ∷ []

unfoldable status_from_str : Bytes → Option MessageStatus
unfolding status_as_str
status_from_str s =
    if s == status_as_str MessageStatus.pending
    then some MessageStatus.pending
    else if s == status_as_str MessageStatus.sent
    then some MessageStatus.sent
    else if s == status_as_str MessageStatus.delivered
    then some MessageStatus.delivered
    else if s == status_as_str MessageStatus.read
    then some MessageStatus.read
    else if s == status_as_str MessageStatus.failed
    then some MessageStatus.failed
    else none

direction_from_str-direction_as_str :
    (d : MessageDirection) → direction_from_str (direction_as_str d) ≡ some d
unfolding direction_from_str
direction_from_str-direction_as_str MessageDirection.sent = refl
direction_from_str-direction_as_str MessageDirection.received = refl

status_from_str-status_as_str : (s : MessageStatus) → status_from_str (status_as_str s) ≡ some s
unfolding status_from_str
status_from_str-status_as_str MessageStatus.pending = refl
status_from_str-status_as_str MessageStatus.sent = refl
status_from_str-status_as_str MessageStatus.delivered = refl
status_from_str-status_as_str MessageStatus.read = refl
status_from_str-status_as_str MessageStatus.failed = refl

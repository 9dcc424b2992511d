-- ===== src/Protocol/Route.antt =====
-- crates/pim-protocol/src/route_frame.rs: route advertisements.
use native.Mathlib.Nat.{add_assoc}
use proximity_internet_mesh.Base.{
  ℕ, ◌+◌, ◌*◌, ◌^◌, ◌%◌, ◌≤◌, ◌<◌, ◌≡◌, refl, ap, ◌∙◌, List, [], ◌∷◌, ◌++◌, arith, Bytes, length,
  drop, Result, ok, ◌>>◌, reject, ltb, nat_eq, not, concat, byte_at, slice, Fits, total, All, Bool,
  zero, suc, slice_past, byte_at_past, slice-field, split_fields, length-append, append_assoc,
  length-concat, slice-concat, drop-concat,
}
use proximity_internet_mesh.Protocol.Wire.{
  Wire, put, get_at, length-put, get_at-concat, byte_at-put,
}
use proximity_internet_mesh.Core.{NodeId, IsNodeId, PimError}
use proximity_internet_mesh.Core.PimError.{protocol}
use proximity_internet_mesh.Core.Message.{too_short_for_header, too_many_entries, truncated}

pub record RouteEntry : Type 0 where
  pub destination : NodeId
  pub hops : ℕ
  pub flags : ℕ
  pub mesh_ip : Bytes

-- `self.flags & 0x01 != 0`: bit 0 is the remainder by 2.
unfoldable pub is_gateway : RouteEntry → Bool
is_gateway e = not (nat_eq (e.flags % 2) 0)

pub record RouteUpdateFrame : Type 0 where
  pub origin_id : NodeId
  pub sequence : ℕ
  pub entries : List RouteEntry
  pub signature : Bytes

abbrev pub header_size : ℕ
header_size = 26

abbrev pub entry_size : ℕ
entry_size = 22

abbrev pub signature_size : ℕ
signature_size = 64

abbrev pub max_entries : ℕ
max_entries = 1000

pub record IsEntry (e : RouteEntry) : Type 0 where
  pub destination_size : IsNodeId e.destination
  pub hops_u8 : e.hops < 256
  pub flags_u8 : e.flags < 256
  pub ip_size : length e.mesh_ip ≡ 4

pub record IsValid (f : RouteUpdateFrame) : Type 0 where
  pub origin_size : IsNodeId f.origin_id
  pub sequence_u64 : f.sequence < 2 ^ 64
  pub entries_valid : All IsEntry f.entries
  pub entries_max : length f.entries ≤ max_entries
  pub signature_fits : length f.signature ≡ signature_size

module _ ⦃wire : Wire⦄ where
  abbrev entry_fields : RouteEntry → List Bytes
  entry_fields e = e.destination ∷ put 1 e.hops ∷ put 1 e.flags ∷ e.mesh_ip ∷ []

  -- The loop of `encode` over the entries.
  unfoldable pub encode_entries : List RouteEntry → Bytes
  encode_entries [] = []
  encode_entries (e ∷ es) = concat (entry_fields e) ++ encode_entries es

  abbrev fields : RouteUpdateFrame → List Bytes
  fields f =
      f.origin_id
      ∷ put 8 f.sequence
      ∷ put 2 (length f.entries % 2 ^ 16)
      ∷ encode_entries f.entries
      ∷ f.signature
      ∷ []

  unfoldable pub encode : RouteUpdateFrame → Bytes
  unfolding encode_entries
  encode f = concat (fields f)

-- One round of the loop of `decode`, and the loop from an offset on.
unfoldable pub read_entry : Bytes → ℕ → RouteEntry
read_entry buf offset = record {
  destination = slice buf offset (offset + 16);
  hops = byte_at buf (offset + 16);
  flags = byte_at buf (offset + 17);
  mesh_ip = slice buf (offset + 18) (offset + 22);
}

unfoldable pub read_entries : ℕ → Bytes → ℕ → List RouteEntry
unfolding read_entry
read_entries zero buf offset = []
read_entries (suc n) buf offset = read_entry buf offset ∷ read_entries n buf (offset + entry_size)

module _ ⦃wire : Wire⦄ where
  unfoldable pub decode : Bytes → Result PimError (RouteUpdateFrame × Bytes)
  unfolding read_entries
  decode buf = do
    reject (ltb (length buf) header_size) (protocol too_short_for_header)
    let origin_id = slice buf 0 16
    let sequence = get_at buf 16 24
    let entry_count = get_at buf 24 26
    reject (ltb max_entries entry_count) (protocol (too_many_entries entry_count))
    let total_size = header_size + entry_count * entry_size + signature_size
    reject (ltb (length buf) total_size) (protocol (truncated total_size (length buf)))
    let entries = read_entries entry_count buf header_size
    let offset = header_size + entry_count * entry_size
    ok (
      record {
        origin_id = origin_id;
        sequence = sequence;
        entries = entries;
        signature = slice buf offset (offset + signature_size);
      },
      drop total_size buf,
    )

-- Reading behind a prefix.
read_entry_past :
    (a b : Bytes) (w o : ℕ) → length a ≡ w → read_entry (a ++ b) (w + o) ≡ read_entry b o
unfolding read_entry
read_entry_past a b w o e = rw (
  add_assoc w o 16,
  add_assoc w o 17,
  add_assoc w o 18,
  add_assoc w o 22,
  slice_past a b w o (o + 16) e,
  byte_at_past a b w (o + 16) e,
  byte_at_past a b w (o + 17) e,
  slice_past a b w (o + 18) (o + 22) e,
)

read_entries_past :
    (n : ℕ) (a b : Bytes) (w o : ℕ)
    → length a ≡ w
    → read_entries n (a ++ b) (w + o) ≡ read_entries n b o
unfolding read_entries
read_entries_past zero a b w o e = refl
read_entries_past (suc n) a b w o e =
    rw (read_entry_past a b w o e, add_assoc w o 22, read_entries_past n a b w (o + 22) e)

abbrev entry_widths : List ℕ
entry_widths = 16 ∷ 1 ∷ 1 ∷ 4 ∷ []

module _ ⦃wire : Wire⦄ where
  entry-Fits : (e : RouteEntry) → IsEntry e → Fits (entry_fields e) entry_widths
  entry-Fits e v = ground (arith, v, length-put 1 e.hops, length-put 1 e.flags)

  pub length-encode_entries :
      (es : List RouteEntry) → All IsEntry es → length (encode_entries es) ≡ length es * entry_size
  unfolding encode_entries
  length-encode_entries [] v = omega arith
  length-encode_entries (e ∷ es) (p, v) = omega (
    arith,
    length-concat (entry_fields e) entry_widths (encode_entries es) (entry-Fits e p),
    length-encode_entries es v,
  )

  read_entry_front :
      (e : RouteEntry) (rest : Bytes)
      → IsEntry e
      → read_entry (concat (entry_fields e) ++ rest) 0 ≡ e
  unfolding read_entry
  read_entry_front e rest v =
      let fit = entry-Fits e v in
      let fs = entry_fields e in
      rw (
        slice-concat fs entry_widths rest fit 0,
        byte_at-put fs entry_widths rest 1 _ fit refl refl v.hops_u8,
        byte_at-put fs entry_widths rest 2 _ fit refl refl v.flags_u8,
        slice-concat fs entry_widths rest fit 3,
      )

  read_entries-encode_entries :
      (es : List RouteEntry) (rest : Bytes)
      → All IsEntry es
      → read_entries (length es) (encode_entries es ++ rest) 0 ≡ es
  unfolding read_entries encode_entries
  read_entries-encode_entries [] rest v = refl
  read_entries-encode_entries (e ∷ es) rest (p, v) =
      let fs = entry_fields e in
      let more = encode_entries es ++ rest in
      let fit = entry-Fits e p in
      let len : length (concat fs) ≡ 22 =
        omega (arith, length-concat fs entry_widths [] fit, length-append (concat fs) []) in
      rw (append_assoc (concat fs) (encode_entries es) rest, read_entry_front e more p)
        (ap (◌∷◌ e) (
          read_entries_past (length es) (concat fs) more 22 0 len
          ∙ read_entries-encode_entries es rest v))

module _ ⦃wire : Wire⦄ where
  abbrev widths : RouteUpdateFrame → List ℕ
  widths f = 16 ∷ 8 ∷ 2 ∷ (length f.entries * entry_size) ∷ 64 ∷ []

  fields-Fits : (f : RouteUpdateFrame) → IsValid f → Fits (fields f) (widths f)
  fields-Fits f v = ground (
    arith,
    v,
    length-put 8 f.sequence,
    length-put 2 (length f.entries % 2 ^ 16),
    length-encode_entries f.entries v.entries_valid,
  )

  decode_reads :
      (buf : Bytes) (n : ℕ)
      → n ≤ max_entries
      → header_size + n * entry_size + signature_size ≤ length buf
      → get_at buf 24 26 ≡ n
      → decode buf
        ≡ ok (
          record {
            origin_id = slice buf 0 16;
            sequence = get_at buf 16 24;
            entries = read_entries n buf header_size;
            signature =
                slice buf
                  (header_size + n * entry_size)
                  (header_size + n * entry_size + signature_size);
          },
          drop (header_size + n * entry_size + signature_size) buf,
        )
  unfolding decode
  decode_reads buf n small fits e = ground arith

  read_entries-fields :
      (f : RouteUpdateFrame) (rest : Bytes)
      → IsValid f
      → read_entries (length f.entries) (concat (fields f) ++ rest) header_size ≡ f.entries
  read_entries-fields f rest v =
      let head : List Bytes =
        f.origin_id ∷ put 8 f.sequence ∷ put 2 (length f.entries % 2 ^ 16) ∷ [] in
      let tail = f.signature ++ [] ++ rest in
      let len : length (concat head ++ []) ≡ 26 + 0 =
        length-concat head (16 ∷ 8 ∷ 2 ∷ []) []
          (ground (arith, v, length-put 8 f.sequence, length-put 2 (length f.entries % 2 ^ 16))) in
      rw
        (
          split_fields (fields f) 3 rest,
          append_assoc (encode_entries f.entries) (f.signature ++ []) rest,
        )
        (read_entries_past (length f.entries) (concat head) _ 26 0
            (omega (arith, len, length-append (concat head) []))
          ∙ read_entries-encode_entries f.entries ((f.signature ++ []) ++ rest) v.entries_valid)

  -- A valid advertisement is read back, entry by entry, from the front of any buffer that begins
  -- with its encoding.
  pub route_decode-encode :
      (f : RouteUpdateFrame) (rest : Bytes) → IsValid f → decode (encode f ++ rest) ≡ ok (f, rest)
  unfolding encode
  route_decode-encode f rest v =
      let fit = fields-Fits f v in
      let ws = widths f in
      let fs = fields f in
      let n = length f.entries in
      decode_reads (concat fs ++ rest) n v.entries_max (omega (arith, length-concat fs ws rest fit))
        (get_at-concat fs ws rest 2 2 _ fit refl (omega arith) ∙ omega (arith, v.entries_max))
      ∙ rw
          (
            slice-concat fs ws rest fit 0,
            get_at-concat fs ws rest 1 8 _ fit refl v.sequence_u64,
            read_entries-fields f rest v,
            slice-field fs ws rest 4 (26 + n * 22) (26 + n * 22 + 64) fit (omega arith)
                (omega arith),
          )
          (ap (λ (r : Bytes). ok (f, r))
            (ap (λ (k : ℕ). drop k (concat fs ++ rest))
                (let q : 26 + n * 22 + 64 ≡ total ws = omega arith in q)
              ∙ drop-concat fs ws rest fit))

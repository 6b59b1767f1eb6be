-- ===== src/Broker/Listing.antt =====
-- LIST_MAILBOXES: the packets that tell the boxes.
use projeto_so.Base.{
  ℕ, ◌+◌, ◌^◌, ◌≤◌, ◌<◌, ◌≡◌, refl, ◌∙◌, inl, inr, Bool, [], ◌∷◌, ◌++◌, some, arith, length,
  if◌then◌else◌, lt→ltb,
}
use projeto_so.Memory.Bytes.{Bytes, memcpy}
use projeto_so.Memory.Ints.{IsText}
use projeto_so.Protocol.{c_string, strcpy, read_long, write_long, write_byte}
use projeto_so.Protocol.At
use projeto_so.Protocol.Fields.{
  c_string-Spells, memcpy-Spells, Spells-same, read_long-write_long, write_long-outside,
  read_long-same, write_byte-here, write_byte-outside,
}
use projeto_so.BoxList.{TfsFile}
use projeto_so.Broker.Answers.{mailbox_answer}

-- The name fits its field of the packet with its NUL, and the counters are 64-bit numbers.
pub record IsSendable (f : TfsFile) : Type 0 where
  pub text : IsText f.box_name
  pub short : length f.box_name < 32
  pub publishers : f.n_publishers < 2 ^ 64
  pub subscribers : f.n_subscribers < 2 ^ 64
  pub bytes : f.box_size < 2 ^ 64

-- What a reader finds in the fields of the packet.
pub record Tells (p : Bytes) (f : TfsFile) (is_last : Bool) : Type 0 where
  pub name : c_string p At.listed_box 32 ≡ some f.box_name
  pub publishers : read_long p At.n_publishers ≡ f.n_publishers
  pub subscribers : read_long p At.n_subscribers ≡ f.n_subscribers
  pub bytes : read_long p At.box_size ≡ f.box_size
  pub last : p At.last ≡ (if is_last then 1 else 0)

module _ (packet : Bytes) (f : TfsFile) (v : ℕ) where
  abbrev named : Bytes
  named = memcpy packet At.listed_box (f.box_name ++ 0 ∷ [])

  abbrev with_publishers : Bytes
  with_publishers = write_long named At.n_publishers f.n_publishers

  abbrev with_subscribers : Bytes
  with_subscribers = write_long with_publishers At.n_subscribers f.n_subscribers

  abbrev with_size : Bytes
  with_size = write_long with_subscribers At.box_size f.box_size

  abbrev filled : Bytes
  filled = write_byte with_size At.last v

  before_size : (x : ℕ) → 1 < x → x < 41 → filled x ≡ named x
  before_size x gt lt =
      write_byte-outside with_size 1 v x (omega arith)
      ∙ write_long-outside with_subscribers 41 f.box_size x (inl (omega arith))
      ∙ write_long-outside with_publishers 49 f.n_subscribers x (inl (omega arith))
      ∙ write_long-outside named 57 f.n_publishers x (inl (omega arith))

  in_size : (x : ℕ) → 41 ≤ x → x < 41 + 8 → filled x ≡ with_size x
  in_size x gt lt = write_byte-outside with_size 1 v x (omega arith)

  in_subscribers : (x : ℕ) → 49 ≤ x → x < 49 + 8 → filled x ≡ with_subscribers x
  in_subscribers x gt lt =
      write_byte-outside with_size 1 v x (omega arith)
      ∙ write_long-outside with_subscribers 41 f.box_size x (inr (omega arith))

  in_publishers : (x : ℕ) → 57 ≤ x → x < 57 + 8 → filled x ≡ with_publishers x
  in_publishers x gt lt =
      write_byte-outside with_size 1 v x (omega arith)
      ∙ write_long-outside with_subscribers 41 f.box_size x (inr (omega arith))
      ∙ write_long-outside with_publishers 49 f.n_subscribers x (inr (omega arith))

filled-Tells :
    (packet : Bytes) (f : TfsFile) (is_last : Bool)
    → IsSendable f
    → Tells (filled packet f (if is_last then 1 else 0)) f is_last
filled-Tells packet f is_last s = record {
  name =
      c_string-Spells p 2 32 f.box_name
        (Spells-same (named packet f v) p 2 f.box_name
          (λ x ge le. before_size packet f v x (omega arith) (omega (arith, s.short)))
          (memcpy-Spells packet 2 f.box_name))
        s.text s.short;
  publishers =
      read_long-same (with_publishers packet f v) p 57 (in_publishers packet f v)
      ∙ read_long-write_long (named packet f v) 57 f.n_publishers s.publishers;
  subscribers =
      read_long-same (with_subscribers packet f v) p 49 (in_subscribers packet f v)
      ∙ read_long-write_long (with_publishers packet f v) 49 f.n_subscribers s.subscribers;
  bytes =
      read_long-same (with_size packet f v) p 41 (in_size packet f v)
      ∙ read_long-write_long (with_subscribers packet f v) 41 f.box_size s.bytes;
  last = write_byte-here (with_size packet f v) 1 v;
}
  where
    v : ℕ
    v = if is_last then 1 else 0

    p : Bytes
    p = filled packet f v

pub mailbox_answer-Tells :
    (packet : Bytes) (f : TfsFile) (is_last : Bool)
    → IsSendable f
    → (p : Bytes) × (mailbox_answer packet f is_last ≡ some p) × Tells p f is_last
unfolding mailbox_answer strcpy
mailbox_answer-Tells packet f is_last s = (
  filled packet f (if is_last then 1 else 0),
  rw (lt→ltb (length f.box_name) 32 s.short) refl,
  filled-Tells packet f is_last s,
)

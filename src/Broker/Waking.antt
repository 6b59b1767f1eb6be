-- ===== src/Broker/Waking.antt =====
-- A subscriber's session after a wait.
use projeto_so.Base.{
  ℕ, ◌+◌, ◌-◌, ◌≤◌, ◌<◌, ◌≡◌, refl, ap, ◌∙◌, Bool-cases, inl, inr, if◌then◌else◌, false, Option,
  none, some, List, [], ◌∷◌, ◌++◌, arith, length, length-append, drop, ℤ, pos, negsuc, is_minus_one,
}
use mathlib.Core.Path.{ap₂}
use projeto_so.Memory.Bytes.{Bytes, memcpy}
use projeto_so.Memory.Ints.{IsText, Spells, Spells-of_bytes, memcpy-at}
use projeto_so.Process.{Ends, ok, writes, is_negative}
use projeto_so.Protocol.{c_string}
use projeto_so.Protocol.At
use projeto_so.Protocol.Fields.{c_string-Spells}
use projeto_so.Fs.Validity.{IsValid, IsOpen, inode, entry}
use projeto_so.Fs.Locking.{IsReliable}
use projeto_so.Fs.Types as Types
use projeto_so.Fs.Operations.{tfs_read}
use projeto_so.Fs.Reading.{target}
use projeto_so.Fs.Contents.{contents}
use projeto_so.Fs.Contents.Chaining.{length-contents}
use projeto_so.Fs.Contents.Reads.{AtEnd, read_rest}
use projeto_so.Broker.{World, Env}
use projeto_so.Broker.Sending.{Serves}
use projeto_so.Broker.Sessions.{Subscription, serve_subscriber}
use projeto_so.Broker.Storing.{encoded, length-encoded}
use projeto_so.Broker.Encoded.{encoded_byte}
use projeto_so.Broker.Stored.{carried}

-- What a subscriber's loop has done after one round.
pub record Served (w : World) (sub : Subscription) (h : ℕ) (message : List ℕ)
    (r : Option Subscription) (w' : World) : Type 0 where
  pub next : Subscription
  pub goes_on : r ≡ some next
  pub same_box : next.box ≡ sub.box
  pub same_pipe : next.pipe ≡ sub.pipe
  pub same_name : next.name ≡ sub.name
  pub packet : Bytes
  pub text : c_string packet At.message 1_024 ≡ some message
  pub code : packet At.opcode ≡ sub.packet At.opcode
  pub sent_once : w'.calls ≡ writes sub.pipe packet ∷ w.calls
  pub files : AtEnd w.fs (target w.fs h) h w'.fs
  pub list : w'.list ≡ w.list
  pub nodes : w'.nodes ≡ w.nodes

-- The message read in front of the old bytes of the buffer.
buffer-Spells : (old : Bytes) (m rest : List ℕ) → Spells (memcpy old 0 (encoded m ++ rest)) 0 m
buffer-Spells old m rest = Spells-of_bytes (memcpy old 0 (encoded m ++ rest)) 0 m λ j x e le.
    memcpy-at old 0 j x (encoded m ++ rest) e
      (omega (arith, le, length-encoded m, length-append {0} (encoded m) rest))
    ∙ encoded_byte m rest j le

drop_front : (xs ys : List ℕ) → drop (length xs) (xs ++ ys) ≡ ys
drop_front [] ys = refl
drop_front (x ∷ xs) ys = drop_front xs ys

not_minus_one : (r : ℤ) → is_negative r ≡ false → is_minus_one r ≡ false
not_minus_one (pos n) e = refl
not_minus_one (negsuc n) e = absurd (cc)

-- The session after the message and what stands behind it were read into its buffer.
abbrev pub read_into : Subscription → List ℕ → List ℕ → Bytes → Subscription
read_into sub message rest p = record sub {
  buffer = memcpy sub.buffer 0 (encoded message ++ rest);
  packet = p;
}

-- One round of the loop with a message behind the handle's offset: what it does up to its `write`,
-- and that it goes on unless `write` returned -1.
pub served_round :
    (e : Env) (w : World) (sub : Subscription) (h : ℕ) (seen message rest : List ℕ)
    → sub.box ≡ pos h
    → IsValid w.fs
    → IsReliable e.pthread
    → IsOpen w.fs h
    → contents w.fs (target w.fs h) ≡ seen ++ (encoded message ++ rest)
    → (entry w.fs h).of_offset ≡ length seen
    → IsText message
    → length message < 1_024
    → length (encoded message ++ rest) ≤ 1_024
    → (t : Types.State) × (p : Bytes) × (serve_subscriber e sub w
        ≡ ok
            (if is_minus_one (e.os.write w.calls sub.pipe p)
              then none
              else some (read_into sub message rest p))
            (record w { fs = t; calls = writes sub.pipe p ∷ w.calls }))
      × (c_string p At.message 1_024 ≡ some message)
      × (p At.opcode ≡ sub.packet At.opcode)
      × AtEnd w.fs (target w.fs h) h t
unfolding serve_subscriber
served_round e w sub h seen message rest box v reliable o holds at text short room =
    let (t, run, at_end) = read_rest e.pthread h 1_024 v reliable o (omega (arith, size, at)) in
    let (p, made, same, reads) = carried sub.packet message text short in
    (
      t,
      p,
      rw
          (
            ap (λ b. tfs_read e.pthread b 1_024 w.fs) box
                ∙ run
                ∙ ap
                    (λ c.
                      Types.ok
                        (pos ((inode w.fs (target w.fs h)).i_size - (entry w.fs h).of_offset), c) t)
                    behind_offset,
            c_string-Spells (memcpy sub.buffer 0 (encoded message ++ rest)) 0 1_024 message
                (buffer-Spells sub.buffer message rest) text short,
            made,
          )
          (elim (Bool-cases (is_minus_one (e.os.write w.calls sub.pipe p))) [
            | inl gone ↦ rw gone refl
            | inr written ↦ rw written refl
          ]),
      reads,
      same,
      at_end,
    )
  where
    size : (inode w.fs (target w.fs h)).i_size ≤ length seen + 1_024
    size = omega (
      arith,
      length-contents w.fs (target w.fs h),
      ap (λ c. length c) holds,
      length-append {0} seen (encoded message ++ rest),
      room,
    )

    behind_offset :
        drop (entry w.fs h).of_offset (contents w.fs (target w.fs h)) ≡ encoded message ++ rest
    behind_offset = ap₂ drop at holds ∙ drop_front seen (encoded message ++ rest)

-- A subscriber that is woken, if its handle is open in a valid file system, the file holds behind
-- the handle's offset a message that is a text of less than 1024 bytes with its NUL, all that is
-- behind the offset fits the buffer, writing to its pipe does not fail and the mutex works: it is
-- sent that message in one packet with the same operation code, and its session goes on with the
-- same pipe and handle. The handle is then at the end of the file, also if more stood behind that
-- message. No file changes, nor the list.
pub serve_subscriber-Served :
    (e : Env) (w : World) (sub : Subscription) (h : ℕ) (seen message rest : List ℕ)
    → sub.box ≡ pos h
    → IsValid w.fs
    → IsReliable e.pthread
    → IsOpen w.fs h
    → contents w.fs (target w.fs h) ≡ seen ++ (encoded message ++ rest)
    → (entry w.fs h).of_offset ≡ length seen
    → IsText message
    → length message < 1_024
    → length (encoded message ++ rest) ≤ 1_024
    → Serves e.os sub.pipe
    → Ends (Served w sub h message) (serve_subscriber e sub w)
serve_subscriber-Served e w sub h seen message rest box v reliable o holds at text short room
      serves =
    let (t, p, run, reads, same, at_end) =
      served_round e w sub h seen message rest box v reliable o holds at text short room in
    rw (run, not_minus_one (e.os.write w.calls sub.pipe p) (serves.write w.calls p))
      (record {
        next = read_into sub message rest p;
        goes_on = refl;
        same_box = refl;
        same_pipe = refl;
        same_name = refl;
        packet = p;
        text = reads;
        code = same;
        sent_once = refl;
        files = at_end;
        list = refl;
        nodes = refl;
      })

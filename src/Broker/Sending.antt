-- ===== src/Broker/Sending.antt =====
-- LIST_MAILBOXES: the packets that are sent for a list of boxes.
use projeto_so.Base.{
  ℕ, zero, suc, ◌<◌, ◌≡◌, refl, ap, ◌∙◌, Bool, true, false, List, [], ◌∷◌, some, arith, length,
  ◌==◌, ℤ, pos, is_zero,
}
use projeto_so.Memory.Bytes.{Bytes, clear_bytes, memcpy}
use projeto_so.Process.{ok, Calls, Os, writes, closes, is_negative, write_only}
use projeto_so.Pipes.{pipe_write, pipe_close, pipe_open, write_once, retry}
use projeto_so.Protocol.{c_string, list_mailboxes_answer, write_byte}
use projeto_so.Protocol.At
use projeto_so.BoxList.{TfsFile, Ptr, null, Nodes}
use projeto_so.BoxList.Chains.{Cells, Chain, files, load-done, differ}
use projeto_so.BoxList.Adding.{IsBoxList}
use projeto_so.Broker.{World, Env}
use projeto_so.Broker.Answers.{send_boxes, handle_list, no_boxes}
use projeto_so.Broker.Listing.{IsSendable, Tells, mailbox_answer-Tells}

-- Writes to the pipe and its closing do not fail.
pub record Serves (os : Os) (pipe : ℤ) : Type 0 where
  pub write : (c : Calls) (p : Bytes) → is_negative (os.write c pipe p) ≡ false
  pub close : (c : Calls) → is_negative (os.close c pipe) ≡ false

-- The history after the packets were written one after the other.
abbrev pub sent : ℤ → List Bytes → Calls → Calls
sent pipe [] c = c
sent pipe (p ∷ ps) c = sent pipe ps (writes pipe p ∷ c)

abbrev pub AllSendable : Cells → Type 0
AllSendable [] = Unit {0}
AllSendable ((a, f) ∷ cells) = IsSendable f × AllSendable cells

abbrev pub is_empty : List TfsFile → Bool
is_empty [] = true
is_empty (f ∷ fs) = false

-- The packets tell the files one after the other, and the last one says so.
abbrev pub Listed : List Bytes → List TfsFile → Type 0
Listed [] [] = Unit {0}
Listed [] (f ∷ fs) = ⊥
Listed (p ∷ ps) [] = ⊥
Listed (p ∷ ps) (f ∷ fs) = Tells p f (is_empty fs) × Listed ps fs

-- The packets of a whole answer: for no file, one with an empty name.
abbrev pub Listing : List Bytes → List TfsFile → Type 0
Listing ps [] = (p : Bytes) × (ps ≡ p ∷ []) × (p At.listed_box ≡ 0) × (p At.last ≡ 1)
Listing ps (f ∷ fs) = Listed ps (f ∷ fs)

pub pipe_write-done :
    (os : Os) (pipe : ℤ) (p : Bytes) (c : Calls)
    → Serves os pipe
    → pipe_write os pipe p c ≡ ok tt (writes pipe p ∷ c)
unfolding pipe_write retry write_once
pipe_write-done os pipe p c serves = rw (serves.write c p) refl

pub pipe_close-done :
    (os : Os) (pipe : ℤ) (c : Calls)
    → Serves os pipe
    → pipe_close os pipe c ≡ ok tt (closes pipe ∷ c)
unfolding pipe_close
pipe_close-done os pipe c serves = rw (serves.close c) refl

is_last-node :
    (m : Nodes) (n : Ptr) (cells : Cells) → Chain m n cells → (n == null) ≡ is_empty (files cells)
is_last-node m n [] e = rw e refl
is_last-node m n ((a, f) ∷ cells) (n', here, ne, holds, rest) = rw here (differ a null ne)

module _ (e : Env) (pipe : ℤ) (serves : Serves e.os pipe) where
  send_boxes-Listed :
      (k : ℕ) (packet : Bytes) (node : Ptr) (w : World) (cells : Cells)
      → Chain w.nodes node cells
      → AllSendable cells
      → length cells < k
      → (ps : List Bytes) × (send_boxes e k pipe packet node w
          ≡ ok tt (record w { calls = sent pipe ps w.calls }))
        × Listed ps (files cells)
  unfolding send_boxes
  send_boxes-Listed zero packet node w cells chain fit le = absurd (omega arith)
  send_boxes-Listed (suc k) packet node w [] chain fit le = ([], rw chain refl, tt)
  send_boxes-Listed (suc k) packet node w ((a, f) ∷ cells) (n, here, ne, holds, rest) (fit, others)
        le =
      let (p, answered, tells) = mailbox_answer-Tells packet f (is_empty (files cells)) fit in
      let w' = record w { calls = writes pipe p ∷ w.calls } in
      let (ps, run, listed) = send_boxes-Listed k p n w' cells rest others (omega arith) in
      (
        p ∷ ps,
        rw
            (
              here,
              differ a null ne,
              load-done w.nodes a ne holds,
              is_last-node w.nodes n cells rest,
              answered,
              pipe_write-done e.os pipe p w.calls serves,
            )
            run,
        (tells, listed),
      )

no_boxes-Listing : (packet : Bytes) → Listing (no_boxes packet ∷ []) []
unfolding no_boxes clear_bytes write_byte memcpy
no_boxes-Listing packet = (no_boxes packet, refl, refl, refl)

not_zero : (n : ℕ) → is_zero (pos (suc n)) ≡ false
not_zero n = ground arith

-- LIST_MAILBOXES, if the request's pipe name ends in its field, the pipe is opened, and writing
-- and closing it do not fail: on a list of boxes whose names and counters fit a packet, with fuel
-- for each box, the handler ends and changes neither the boxes nor the file system. It sends one
-- packet for each box in the order of the list, from which a reader gets the box's name and three
-- counters back; only the last one is marked as the last. If there is no box it sends one packet
-- with an empty name. Then it closes the pipe.
pub handle_list-Listing :
    (e : Env) (request : Bytes) (w : World) (cells : Cells) (name : List ℕ) (pipe : ℤ)
    (opened : Calls)
    → c_string request At.client_pipe 256 ≡ some name
    → pipe_open e.os name write_only w.calls ≡ ok pipe opened
    → Serves e.os pipe
    → IsBoxList w.nodes w.list cells
    → AllSendable cells
    → length cells < e.fuel
    → (ps : List Bytes) × (handle_list e request w
        ≡ ok tt (record w { calls = closes pipe ∷ sent pipe ps opened }))
      × Listing ps (files cells)
unfolding handle_list
handle_list-Listing e request w [] name pipe opened named open_run serves boxes fit le = (
  no_boxes (write_byte e.stack 0 list_mailboxes_answer) ∷ [],
  rw
      (
        named,
        open_run,
        ap is_zero boxes.count,
        pipe_write-done e.os pipe (no_boxes (write_byte e.stack 0 list_mailboxes_answer)) opened
            serves,
        pipe_close-done e.os pipe
            (writes pipe (no_boxes (write_byte e.stack 0 list_mailboxes_answer)) ∷ opened) serves,
      )
      refl,
  no_boxes-Listing (write_byte e.stack 0 list_mailboxes_answer),
)
handle_list-Listing e request w (c ∷ cells) name pipe opened named open_run serves boxes fit le =
    let (ps, run, listed) =
      send_boxes-Listed e pipe serves e.fuel (write_byte e.stack 0 list_mailboxes_answer)
        w.list.head (record w { calls = opened }) (c ∷ cells) boxes.chain fit le in
    (
      ps,
      rw
          (
            named,
            open_run,
            ap is_zero boxes.count ∙ not_zero (length cells),
            run,
            pipe_close-done e.os pipe (sent pipe ps opened) serves,
          )
          refl,
      listed,
    )

-- ===== src/Context/Life.antt =====
-- The life of a context as a relation: what a program can do with a context of src/context.c, from its
-- creation on, in any order.
use libsmp.Base.{ℕ, ◌^◌, ◌<◌, ◌≡◌, some, List, length}
use libsmp.Errors.{Result}
use libsmp.Heap.{Heap}
use libsmp.Serial.Decoder.{Decoder}
use libsmp.Serial.Decoder
use libsmp.Message.Store.{Message}
use libsmp.Message.Store
use libsmp.Buffer.{Buffer}
use libsmp.Context.State.{
  Context, EventCallbacks, new, new_from_static, open_device, close, set_decoder_maximum_capacity,
}
use libsmp.Context.Send.{send_message}
use libsmp.Context.Receive.{process_fd, wait_and_process}

-- One call, with what the device answers to it; or something else allocates or frees memory.
pub data Step (h : Heap) (ctx : Context) : Heap → Context → Type 0 where
  opens : (device : Result ℕ) → Step h ctx h (open_device ctx device).1
  closes : Step h ctx h (close ctx)
  limits : (max : ℕ) → Step h ctx h (set_decoder_maximum_capacity ctx max).1
  sends :
      (msg : Message) (write : List ℕ → Result ℕ)
      → Step h ctx (send_message h ctx msg write).heap ctx
  receives :
      (rs : List (Result (List ℕ))) → Step h ctx (process_fd h ctx rs).2 (process_fd h ctx rs).3
  waits :
      (ready : Result (Unit {0})) (rs : List (Result (List ℕ)))
      → Step h ctx (wait_and_process h ctx ready rs).2 (wait_and_process h ctx ready rs).3
  elsewhere : (h' : Heap) → Step h ctx h' ctx

-- The contexts that calls can lead to. The storage for a static context is as large as the caller says.
pub data Reachable : Heap → Context → Type 0 where
  allocates :
      (h : Heap) (cbs : EventCallbacks) (ctx : Context)
      → (new h cbs).0 ≡ some ctx
      → Reachable (new h cbs).1 ctx
  takes_storage :
      (h : Heap) (cbs : EventCallbacks) (sdec decoder : Decoder) (buf : List ℕ)
      (dec_size bufsize msg_size capacity ctx_size : ℕ) (msg_rx : Message)
      (serial_tx msg_tx : Buffer) (ctx : Context)
      → length buf ≡ bufsize
      → bufsize < 2 ^ 64
      → Decoder.new_from_static h sdec dec_size buf bufsize ≡ some decoder
      → Store.new_from_static msg_size capacity ≡ some msg_rx
      → new_from_static ctx_size cbs decoder serial_tx msg_tx msg_rx ≡ some ctx
      → Reachable h ctx
  goes_on :
      (h h' : Heap) (ctx ctx' : Context) → Reachable h ctx → Step h ctx h' ctx' → Reachable h' ctx'

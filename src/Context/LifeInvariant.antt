-- ===== src/Context/LifeInvariant.antt =====
-- What every call of src/context.c keeps of a context.
use libsmp.Base.{
  ℕ, ◌≡◌, inl, inr, refl, ap, arith, Bool, true, false, Option, none, some, Bool-cases, subst, ltb,
}
use libsmp.Errors.{Result, ok, err, fault}
use libsmp.Heap.{Heap, alloc}
use libsmp.Serial.Decoder.{Decoder, process_byte}
use libsmp.Serial.Decoder
use libsmp.Serial.Storage
use libsmp.Serial.Invariant.{set_maximum_capacity-IsValid, new-IsValid, new_from_static-IsValid}
use libsmp.Message.Store.{Message, clear}
use libsmp.Message.Store
use libsmp.Message.Invariant.{
  clear-IsValid, build_from_buffer-IsValid, new_from_static_with_id-IsValid,
}
use libsmp.Message.Invariant
use libsmp.Buffer.{Buffer}
use libsmp.Context.State.{
  Context, EventCallbacks, sizeof_context, init, with_decoder, new, new_from_static, open_device,
  close, set_decoder_maximum_capacity,
}
use libsmp.Context.Life.{
  Step, opens, closes, limits, sends, receives, waits, elsewhere, Reachable, allocates,
  takes_storage, goes_on,
}
use libsmp.Context.WellFormed.{IsValid, decoder-IsValid, process_fd-IsValid, waited-IsValid}

reopened-IsValid : (ctx : Context) (b : Bool) → IsValid ctx → IsValid (record ctx { opened = b })
reopened-IsValid ctx b v = record { decoder = v.decoder; holding = v.holding }

open_device-IsValid :
    (ctx : Context) (device : Result ℕ) → IsValid ctx → IsValid (open_device ctx device).1
unfolding open_device
open_device-IsValid ctx (ok n) v = ground (arith, v, reopened-IsValid ctx true v)
open_device-IsValid ctx (err e) v = ground (arith, v)
open_device-IsValid ctx fault v = ground (arith, v)

limited-IsValid :
    (ctx : Context) (max : ℕ) → IsValid ctx → IsValid (set_decoder_maximum_capacity ctx max).1
unfolding set_decoder_maximum_capacity
limited-IsValid ctx max v =
    ground
      (arith, v, decoder-IsValid ctx _ v (set_maximum_capacity-IsValid ctx.decoder max v.decoder))

Step-IsValid :
    (h : Heap) (ctx : Context) (h' : Heap) (ctx' : Context)
    → Step h ctx h' ctx'
    → IsValid ctx
    → IsValid ctx'
Step-IsValid h ctx h' ctx' (opens device) v = open_device-IsValid ctx device v
Step-IsValid h ctx h' ctx' closes v =
    unfold close in ground (arith, v, reopened-IsValid ctx false v)
Step-IsValid h ctx h' ctx' (limits max) v = limited-IsValid ctx max v
Step-IsValid h ctx h' ctx' (sends msg write) v = v
Step-IsValid h ctx h' ctx' (receives rs) v = process_fd-IsValid rs h ctx v
Step-IsValid h ctx h' ctx' (waits ready rs) v = waited-IsValid ready rs h ctx v
Step-IsValid h ctx h' ctx' (elsewhere h'') v = v

some_inj {ℓ} : {A : Type ℓ} (x y : A) → ◌≡◌ {A = Option A} (some x) (some y) → x ≡ y
some_inj x y e = ap (λ o. elim o [ none ↦ x | some z ↦ z ]) e

with_decoder-IsValid :
    (cbs : EventCallbacks) (ctx : Context) (r : Option Decoder × Heap)
    → ((d : Decoder) → r.0 ≡ some d → Storage.IsValid d)
    → (with_decoder r cbs).0 ≡ some ctx
    → IsValid ctx
unfolding init
with_decoder-IsValid cbs ctx (none, h) k e = cc e
with_decoder-IsValid cbs ctx (some d, h) k e =
    subst IsValid (some_inj (init d cbs false) ctx e) (record { decoder = k d refl; holding = tt })

created-IsValid :
    (h : Heap) (cbs : EventCallbacks) (ctx : Context) → (new h cbs).0 ≡ some ctx → IsValid ctx
unfolding new
created-IsValid h cbs ctx e = elim (Bool-cases (alloc h sizeof_context).0) [
  | inl g ↦
      let h1 = (alloc h sizeof_context).1 in
      with_decoder-IsValid cbs ctx (Decoder.new h1 0) (λ d k. (new-IsValid h1 0 (omega arith) k).0)
        (rw g at e)
  | inr g ↦ cc (rw g at e)
]

static-IsValid :
    (struct_size : ℕ) (cbs : EventCallbacks) (d : Decoder) (serial_tx msg_tx : Buffer) (m : Message)
    (ctx : Context)
    → Storage.IsValid d
    → Invariant.IsValid m
    → new_from_static struct_size cbs d serial_tx msg_tx m ≡ some ctx
    → IsValid ctx
unfolding new_from_static init
static-IsValid struct_size cbs d serial_tx msg_tx m ctx v w e =
    elim (Bool-cases (ltb struct_size sizeof_context)) [
      | inl g ↦ cc (rw g at e)
      | inr g ↦ subst IsValid (some_inj _ ctx (rw g at e)) (record { decoder = v; holding = w })
    ]

-- Every context that calls can lead to, in any order and with any answers of the device and of the
-- allocator, is well formed: its decoder is valid, and it has either buffers and a message of its
-- caller, the message with as many slots as it says, or none of them.
pub Reachable-IsValid : (h : Heap) (ctx : Context) → Reachable h ctx → IsValid ctx
Reachable-IsValid h ctx (allocates h0 cbs c e) = created-IsValid h0 cbs c e
Reachable-IsValid h ctx
      (takes_storage h0 cbs sdec d buf n bufsize k capacity l m stx mtx c e1 e2 e3 e4 e5) =
    static-IsValid l cbs d stx mtx m c (new_from_static-IsValid h0 sdec n buf bufsize e1 e2 e3).0
      (new_from_static_with_id-IsValid k capacity 0 {m = m} (unfold Store.new_from_static in e4)).0
      e5
Reachable-IsValid h ctx (goes_on h0 h1 c c' r s) =
    Step-IsValid h0 c h1 c' s (Reachable-IsValid h0 c r)

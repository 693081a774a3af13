-- ===== src/Checks/Arrays.antt =====
-- Tensors of any type and shape, as their bytes: an array has as many bytes as its type and shape say.
use native.Mathlib.Decide.{ℕ_discrete}
use native.Mathlib.Nat.{ℕ_set}
use pi_ssm.Base.{ℕ, ◌*◌, List, [], ◌∷◌, ◌≡◌, refl, ap, length}
use pi_ssm.Base.Dict
use pi_ssm.Base.Result.{ok, raise}
use pi_ssm.Tensors.{
  NumpyType, float32, float16, dtype_name, Torch, TorchLaws, ReadLaws, Payload, prod,
  serialize_tensor, deserialize_tensor, check_size, unsupported_dtype, size_mismatch,
}
use pi_ssm.Tensors.RoundTrip.{deserialize_tensor_iff}
use pi_ssm.Checks.Deployment.{itemsize}

pub record Array : Type 0 where
  pub np_dtype : NumpyType
  pub shape : List ℕ
  pub buffer : List ℕ
  pub sized : length buffer ≡ prod shape * itemsize np_dtype

abbrev empty : Array
unfolding prod
empty = record { np_dtype = float32; shape = 0 ∷ []; buffer = []; sized = refl }

-- A buffer that does not fit is an error of numpy, for which the empty array stands.
abbrev read_by :
    (buffer : List ℕ) (np_dtype : NumpyType) (shape : List ℕ)
    → Dec (length buffer ≡ prod shape * itemsize np_dtype)
    → Array
read_by buffer np_dtype shape (yes sized) = record {
  np_dtype = np_dtype;
  shape = shape;
  buffer = buffer;
  sized = sized;
}
read_by buffer np_dtype shape (no misfit) = empty

abbrev arrays : Torch Array
arrays = record {
  tobytes = λ a. a.buffer;
  shape = λ a. a.shape;
  dtype = λ a. dtype_name a.np_dtype;
  numpy_type = λ a. a.np_dtype;
  itemsize = itemsize;
  from_buffer = λ buffer np_dtype shape.
      read_by buffer np_dtype shape (ℕ_discrete (length buffer) (prod shape * itemsize np_dtype));
}

rebuilt_by :
    (a : Array) (d : Dec (length a.buffer ≡ prod a.shape * itemsize a.np_dtype))
    → read_by a.buffer a.np_dtype a.shape d ≡ a
rebuilt_by a (yes sized) =
    ap
      (λ (h : length a.buffer ≡ prod a.shape * itemsize a.np_dtype).
        (let b : Array = record {
          np_dtype = a.np_dtype;
          shape = a.shape;
          buffer = a.buffer;
          sized = h;
        } in
          b))
      (ℕ_set _ _ sized a.sized)
rebuilt_by a (no misfit) = absurd (misfit a.sized)

read_lem :
    (buffer : List ℕ) (np_dtype : NumpyType) (shape : List ℕ)
    (d : Dec (length buffer ≡ prod shape * itemsize np_dtype))
    → length buffer ≡ prod shape * itemsize np_dtype
    → ((read_by buffer np_dtype shape d).buffer ≡ buffer)
      × ((read_by buffer np_dtype shape d).shape ≡ shape)
      × ((read_by buffer np_dtype shape d).np_dtype ≡ np_dtype)
read_lem buffer np_dtype shape (yes sized) fits = (refl, refl, refl)
read_lem buffer np_dtype shape (no misfit) fits = absurd (misfit fits)

arrays_laws : TorchLaws arrays
arrays_laws = record {
  named = λ a. refl;
  sized = λ a. a.sized;
  rebuilt = λ a. rebuilt_by a (ℕ_discrete (length a.buffer) (prod a.shape * itemsize a.np_dtype));
}

arrays_reads : ReadLaws arrays
arrays_reads = record {
  read = λ buffer np_dtype shape.
      read_lem buffer np_dtype shape (ℕ_discrete (length buffer) (prod shape * itemsize np_dtype));
}

-- Two half-precision numbers.
abbrev halves : Array
unfolding prod
halves = record {
  np_dtype = float16;
  shape = 1 ∷ 2 ∷ [];
  buffer = 0 ∷ 60 ∷ 0 ∷ 64 ∷ [];
  sized = refl;
}

abbrev sent : Payload
sent = record { buffer = 0 ∷ 60 ∷ 0 ∷ 64 ∷ []; dims = 1 ∷ 2 ∷ []; dtype_str = "torch.float16" }

received : deserialize_tensor arrays sent ≡ ok halves
unfolding serialize_tensor halves
received = (deserialize_tensor_iff arrays arrays_laws arrays_reads sent halves).1 refl

other_type :
    deserialize_tensor arrays (record sent { dtype_str = "torch.bfloat16" })
    ≡ raise (unsupported_dtype "torch.bfloat16")
unfolding deserialize_tensor check_size Dict.get
other_type = refl

-- The same bytes are too few for single precision.
too_few :
    deserialize_tensor arrays (record sent { dtype_str = "torch.float32" })
    ≡ raise (size_mismatch 4 8)
unfolding deserialize_tensor check_size prod Dict.get
too_few = refl

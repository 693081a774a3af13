-- ===== src/Tensors.antt =====
-- inference/tensor_utils.py. Tensors, their buffers and numpy's reading of a buffer belong to PyTorch
-- and numpy: they are the parameter `torch`, and what the code relies on are the records `TorchLaws`
-- and `ReadLaws`. `Tensor` stands for the tensors that numpy can hold, in the types of `NumpyType`.
pub mod RoundTrip
use pi_ssm.Base.{
  ℕ, zero, suc, ◌*◌, String, Bool, true, Option, none, some, List, [], ◌∷◌, ◌≡◌, eqb, length,
  if◌then◌else◌,
}
use pi_ssm.Base.Dict
use pi_ssm.Base.Dict.{Dict}
use pi_ssm.Base.Result.{Result, ok, raise, ◌>>=◌}

pub data TensorFault : Type 0 where
  unsupported_dtype : String → TensorFault
  size_mismatch : ℕ → ℕ → TensorFault

-- `np.float32` and the others
pub data NumpyType : Type 0 where
  float32 float16 int64 int32 : NumpyType

-- `DTYPE_MAP`
abbrev pub dtype_map : Dict NumpyType
dtype_map =
    ("torch.float32", float32)
    ∷ ("torch.float16", float16)
    ∷ ("torch.int64", int64)
    ∷ ("torch.int32", int32)
    ∷ []

-- `tobytes`: the contiguous buffer; `dtype`: `str(tensor.dtype)`; `numpy_type`: the type of
-- `tensor.numpy()`; `itemsize`: that of `np.dtype`; `from_buffer`: `frombuffer`, `reshape` and
-- `from_numpy` of a buffer, a type and a shape, which raises for another size than theirs; the code
-- reads only behind its own check of the size.
pub record Torch (Tensor : Type 0) : Type 0 where
  pub tobytes : Tensor → List ℕ
  pub shape : Tensor → List ℕ
  pub dtype : Tensor → String
  pub numpy_type : Tensor → NumpyType
  pub itemsize : NumpyType → ℕ
  pub from_buffer : List ℕ → NumpyType → List ℕ → Tensor

-- `int(np.prod(shape))`
unfoldable pub prod : List ℕ → ℕ
prod [] = 1
prod (n ∷ shape) = n * prod shape

-- PyTorch's name of the type of a tensor whose array has a numpy type.
abbrev pub dtype_name : NumpyType → String
dtype_name float32 = "torch.float32"
dtype_name float16 = "torch.float16"
dtype_name int64 = "torch.int64"
dtype_name int32 = "torch.int32"

-- A serialized tensor, as it stands in a protobuf message.
pub record Payload : Type 0 where
  pub buffer : List ℕ
  pub dims : List ℕ
  pub dtype_str : String

module _ {Tensor : Type 0} (torch : Torch Tensor) where
  unfoldable pub serialize_tensor : Tensor → Payload
  serialize_tensor t = record {
    buffer = torch.tobytes t;
    dims = torch.shape t;
    dtype_str = torch.dtype t;
  }

  unfoldable pub check_size : Payload → Option NumpyType → Result TensorFault Tensor
  unfolding prod
  check_size p none = raise (unsupported_dtype p.dtype_str)
  check_size p (some np_dtype) =
      let expected_size = prod p.dims * torch.itemsize np_dtype in
      if eqb (length p.buffer) expected_size
      then ok (torch.from_buffer p.buffer np_dtype p.dims)
      else raise (size_mismatch (length p.buffer) expected_size)

  unfoldable pub deserialize_tensor : Payload → Result TensorFault Tensor
  unfolding check_size
  deserialize_tensor p = check_size p (Dict.get dtype_map p.dtype_str)

  -- What PyTorch and numpy document of `tensor.numpy()`: its type is the one that PyTorch's name of
  -- the tensor's type says, its bytes are as many as its shape and type give, and reading these bytes
  -- with this type and shape gives the tensor back.
  pub record TorchLaws : Type 0 where
    pub named : (t : Tensor) → torch.dtype t ≡ dtype_name (torch.numpy_type t)
    pub sized :
        (t : Tensor)
        → length (torch.tobytes t) ≡ prod (torch.shape t) * torch.itemsize (torch.numpy_type t)
    pub rebuilt :
        (t : Tensor) → torch.from_buffer (torch.tobytes t) (torch.numpy_type t) (torch.shape t) ≡ t

  -- What they document of reading a buffer of the right size: the tensor has this type and shape, and
  -- these bytes.
  pub record ReadLaws : Type 0 where
    pub read :
        (buffer : List ℕ) (np_dtype : NumpyType) (shape : List ℕ)
        → length buffer ≡ prod shape * torch.itemsize np_dtype
        → (torch.tobytes (torch.from_buffer buffer np_dtype shape) ≡ buffer)
          × (torch.shape (torch.from_buffer buffer np_dtype shape) ≡ shape)
          × (torch.numpy_type (torch.from_buffer buffer np_dtype shape) ≡ np_dtype)

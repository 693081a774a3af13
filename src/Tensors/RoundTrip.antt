-- ===== src/Tensors/RoundTrip.antt =====
-- What travels between nodes is what was sent, and nothing else is accepted.
use pi_ssm.Base.{
  ℕ, String, Option, none, some, List, ◌≢◌, ◌≡◌, ◌↔◌, refl, ap, sym, ◌∙◌, length, ◌*◌, eqb, eqb_iff,
  eqb-ne, if◌then◌else◌, Bool-cases, inl, inr, ◌==◌, eq_iff,
}
use pi_ssm.Base.Dict
use pi_ssm.Base.Result.{Result, ok, raise}
use pi_ssm.Tensors.{
  NumpyType, float32, float16, int64, int32, dtype_map, dtype_name, TensorFault, Torch, TorchLaws,
  ReadLaws, Payload, prod, size_mismatch, serialize_tensor, check_size, deserialize_tensor,
}

-- `DTYPE_MAP` has the numpy type for PyTorch's name of each type, and no other name.
get-dtype_name : (type : NumpyType) → Dict.get dtype_map (dtype_name type) ≡ some type
unfolding Dict.get
get-dtype_name float32 = refl
get-dtype_name float16 = refl
get-dtype_name int64 = refl
get-dtype_name int32 = refl

some_inj : (a b : NumpyType) → some a ≡ some b → a ≡ b
some_inj a b e = cc

picked :
    (key name : String) (here type : NumpyType) (others : Option NumpyType)
    → dtype_name here ≡ key
    → (if key == name then some here else others) ≡ some type
    → (others ≡ some type → dtype_name type ≡ name)
    → dtype_name type ≡ name
picked key name here type others named h next = elim (Bool-cases (key == name)) [
  | inl same ↦
      sym (ap dtype_name (some_inj here type (rw same at h))) ∙ named ∙ (eq_iff key name).0 same
  | inr other ↦ next (rw other at h)
]

dtype_name-get :
    (name : String) (type : NumpyType)
    → Dict.get dtype_map name ≡ some type
    → dtype_name type ≡ name
unfolding Dict.get
dtype_name-get name type h = picked "torch.float32" name float32 type _ refl h (λ h.
    picked "torch.float16" name float16 type _ refl h (λ h.
      picked "torch.int64" name int64 type _ refl h
        (λ h. picked "torch.int32" name int32 type none refl h (λ h. absurd (cc)))))

module _ {Tensor : Type 0} (torch : Torch Tensor) (laws : TorchLaws torch) where
  get-dtype : (t : Tensor) → Dict.get dtype_map (torch.dtype t) ≡ some (torch.numpy_type t)
  get-dtype t = ap (Dict.get dtype_map) (laws.named t) ∙ get-dtype_name (torch.numpy_type t)

  -- A tensor that is serialized and deserialized is the tensor that was sent.
  pub deserialize_tensor-serialize_tensor :
      (t : Tensor) → deserialize_tensor torch (serialize_tensor torch t) ≡ ok t
  unfolding serialize_tensor deserialize_tensor
  deserialize_tensor-serialize_tensor t =
      rw (get-dtype t, check_size, (eqb_iff _ _).1 (laws.sized t), laws.rebuilt t)

  -- Where tensors have the types of DTYPE_MAP, and their bytes are as many as their shapes say: a
  -- serialized tensor whose buffer is replaced by one of another length is refused.
  pub deserialize_tensor_truncated :
      (t : Tensor) (buffer : List ℕ)
      → length buffer ≢ length (torch.tobytes t)
      → deserialize_tensor torch (record (serialize_tensor torch t) { buffer = buffer })
        ≡ raise (size_mismatch (length buffer) (length (torch.tobytes t)))
  unfolding serialize_tensor deserialize_tensor
  deserialize_tensor_truncated t buffer h =
      rw (get-dtype t, check_size, ← laws.sized t, eqb-ne _ _ h)

  module _ (reads : ReadLaws torch) where
    serialize-from_buffer :
        (p : Payload) (type : NumpyType)
        → dtype_name type ≡ p.dtype_str
        → length p.buffer ≡ prod p.dims * torch.itemsize type
        → serialize_tensor torch (torch.from_buffer p.buffer type p.dims) ≡ p
    unfolding serialize_tensor
    serialize-from_buffer p type named sized =
        let (bytes, shape, typed) = reads.read p.buffer type p.dims sized in
        rw (bytes, shape, laws.named (torch.from_buffer p.buffer type p.dims), typed, named) refl

    serialize-check_size :
        (p : Payload) (found : Option NumpyType) (t : Tensor)
        → Dict.get dtype_map p.dtype_str ≡ found
        → check_size torch p found ≡ ok t
        → serialize_tensor torch t ≡ p
    unfolding check_size
    serialize-check_size p none t e h = absurd (cc)
    serialize-check_size p (some type) t e h =
        elim (Bool-cases (eqb (length p.buffer) (prod p.dims * torch.itemsize type))) [
          | inl fits ↦
              ap (serialize_tensor torch) (sym (ok_inj _ _ (rw fits at h)))
              ∙ serialize-from_buffer p type (dtype_name-get p.dtype_str type e)
                  ((eqb_iff _ _).0 fits)
          | inr misfit ↦ absurd (raise_ne _ _ (rw misfit at h))
        ]
      where
        ok_inj : (a b : Tensor) → (let r : Result TensorFault Tensor = ok a in r) ≡ ok b → a ≡ b
        ok_inj a b e = cc

        raise_ne : (fault : TensorFault) (a : Tensor) → raise fault ≢ ok a
        raise_ne fault a e = cc

    pub deserialize_tensor_iff :
        (p : Payload) (t : Tensor)
        → (deserialize_tensor torch p ≡ ok t) ↔ (serialize_tensor torch t ≡ p)
    unfolding deserialize_tensor
    deserialize_tensor_iff p t = (
      serialize-check_size p (Dict.get dtype_map p.dtype_str) t refl,
      λ e. ap (deserialize_tensor torch) (sym e) ∙ deserialize_tensor-serialize_tensor t,
    )

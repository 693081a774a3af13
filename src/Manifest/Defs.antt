-- ===== src/Manifest/Defs.antt =====
-- `ModelManifest` of inference/manifest.py.

-- The dataclass does not check its fields: `Text` and `Number` are what stands in the fields that it
-- annotates as `str` and as `int`.
pub record Manifest (Text Number : Type 0) : Type 0 where
  pub name : Text
  pub arch : Text
  pub checkpoint : Text
  pub layers : Number
  pub hidden_dim : Number
  pub state_dim : Number
  pub input_type : Text
  pub tokenizer : Text

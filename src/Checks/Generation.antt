-- ===== src/Checks/Generation.antt =====
-- Generation on the deployment of Checks.Deployment.
use pi_ssm.Base.{ℕ, ◌%◌, String, Bool, true, false, [], ◌∷◌, ◌≡◌, refl, map}
use pi_ssm.Base.Decimal.{address, decimal}
use pi_ssm.Base.Dict
use pi_ssm.Dispatch.{ShardAssignment}
use pi_ssm.Shard.{forward, run_layers, embed, project}
use pi_ssm.Worker.Running.{call_cache}
use pi_ssm.Results.{new_store}
use pi_ssm.Pipeline.{System, Runner}
use pi_ssm.Pipeline.Correct.{run_alone, IsReady}
use pi_ssm.Pipeline.Streams.{generate_stream, IsAlike, stream_loop}
use pi_ssm.Pipeline.Generation.{
  Mirrors, cluster_step, alone_step, token_of, generate_stream-IsAlike,
}
use pi_ssm.Checks.Deployment.{
  numbers, numbers_laws, model, entry_of, local, front, back, alone, deployed, seated, network,
  placed, measured,
}

abbrev assignment : String → ℕ → ℕ → Bool → Bool → String → ShardAssignment
assignment ip start end first last next = record {
  node_id = ip;
  ip_address = ip;
  inference_port = 50052;
  layer_start = start;
  layer_end = end;
  is_first = first;
  is_last = last;
  next_worker_address = next;
}

abbrev pub runner : Runner
runner = record {
  plan = record {
    assignments =
        assignment "10.0.0.1" 0 1 true false "10.0.0.2:50052"
        ∷ assignment "10.0.0.2" 1 3 false true ""
        ∷ [];
    arch = "mamba";
    model_name = "mamba";
    checkpoint = "tiny";
    total_layers = 3;
  };
  callback_address = "10.0.0.9:50051";
  measure = measured;
  callback_up = true;
}

abbrev pub system : System ℕ (ℕ → ℕ)
system = record { store = new_store; network = network }

abbrev pub ids : ℕ → String
ids k = decimal k

pub ready : IsReady numbers numbers_laws runner ids system front (back ∷ [])
unfolding address Dict.get
ready = record {
  head = assignment "10.0.0.1" 0 1 true false "10.0.0.2:50052";
  others = assignment "10.0.0.2" 1 3 false true "" ∷ [];
  planned = refl;
  entrance = refl;
  hops = refl;
  seated = seated;
  placed = placed;
  unused = λ k. refl;
  reachable = refl;
  mode = refl;
}

abbrev pub argmax : ℕ → ℕ
argmax logits = logits % 7

generate_stream-IsAlike_example :
    IsAlike
      (cluster_step numbers numbers_laws runner ids model entry_of)
      (alone_step numbers numbers_laws runner ids model entry_of)
      (token_of numbers numbers_laws runner ids model entry_of argmax local)
      argmax
      (Mirrors numbers numbers_laws runner ids model entry_of)
      4
      (generate_stream
        (cluster_step numbers numbers_laws runner ids model entry_of)
        (token_of numbers numbers_laws runner ids model entry_of argmax local)
        4
        4
        system)
      (generate_stream (alone_step numbers numbers_laws runner ids model entry_of) argmax 4 4 alone)
generate_stream-IsAlike_example =
    generate_stream-IsAlike numbers numbers_laws runner ids model entry_of argmax local 4 4 system
      alone front (back ∷ []) ready deployed refl

-- The single node's tokens for the prompt 4.
alone_tokens :
    map
      (λ g. g.token_id)
      (generate_stream
        (alone_step numbers numbers_laws runner ids model entry_of)
        argmax
        4
        4
        alone).steps
    ≡ 0 ∷ 1 ∷ 3 ∷ 6 ∷ []
unfolding generate_stream stream_loop run_alone forward run_layers embed project call_cache
alone_tokens = refl

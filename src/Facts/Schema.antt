-- ===== src/Facts/Schema.antt =====
-- The facts and the evidence for them (src/analysis_facts.hpp). A string and a byte vector are the
-- list of their bytes, std::optional is Option.
use viy.Base.{ℕ, Bool, Option, List}
use viy.Base.Int.{ℤ}
use viy.Facts.Enums.{
  FactKind, code_target_kind, branch_reachability_kind, memory_access_kind, memory_value_kind,
  string_candidate_kind, function_candidate_kind, function_trait_kind, code_region_kind,
  dispatch_map_kind, cfg_candidate_kind, function_outcome_kind, register_value_kind,
  call_observation_kind, ProofKind, CodeTargetKind, Reachability, MemoryAccessKind, StringEncoding,
  FunctionCandidateKind, FunctionTraitKind, TraitValueKind,
}
use viy.Facts.Kinds.{
  CodeRegionKind, CfgEdgeKind, FunctionStopKind, RegisterStatePoint, CallKind, CallResult,
}

abbrev pub Text : Type 0
Text = List ℕ

pub record EvidenceScope : Type 0 where
  pub run_id : Option ℕ
  pub seed : Option ℕ
  pub function_start : Option ℕ
  pub function_end : Option ℕ
  pub generation : ℕ

pub record Evidence : Type 0 where
  pub producer : Text
  pub method : Text
  pub proof : ProofKind
  pub confidence : ℕ
  pub scope : EvidenceScope
  pub support_addresses : List ℕ
  pub detail : Text

pub record CodeTargetFact : Type 0 where
  pub from : ℕ
  pub target : ℕ
  pub kind : CodeTargetKind
  pub unique : Bool

pub record BranchReachabilityFact : Type 0 where
  pub branch : ℕ
  pub successor : ℕ
  pub state : Reachability

pub record MemoryAccessFact : Type 0 where
  pub instruction : ℕ
  pub address : ℕ
  pub size : ℕ
  pub kind : MemoryAccessKind

pub record MemoryValueFact : Type 0 where
  pub instruction : ℕ
  pub address : ℕ
  pub kind : MemoryAccessKind
  pub bytes : List ℕ

pub record StringCandidateFact : Type 0 where
  pub address : ℕ
  pub encoding : StringEncoding
  pub bytes : List ℕ
  pub decoded : Text
  pub null_terminated : Bool

pub record FunctionCandidateFact : Type 0 where
  pub entry : ℕ
  pub end : Option ℕ
  pub kind : FunctionCandidateKind

pub record TraitValue : Type 0 where
  pub kind : TraitValueKind
  pub signed_value : ℤ
  pub unsigned_value : ℕ
  pub boolean_value : Bool
  pub text_value : Text

pub record FunctionTraitFact : Type 0 where
  pub function : ℕ
  pub trait : FunctionTraitKind
  pub value : TraitValue

pub record CodeRegionFact : Type 0 where
  pub start : ℕ
  pub end : ℕ
  pub kind : CodeRegionKind

pub record DispatchCase : Type 0 where
  pub selector : Option ℕ
  pub target : ℕ

pub record DispatchMapFact : Type 0 where
  pub site : ℕ
  pub cases : List DispatchCase
  pub default_target : Option ℕ
  pub complete : Bool

pub record CfgCandidateFact : Type 0 where
  pub from : ℕ
  pub to : ℕ
  pub kind : CfgEdgeKind
  pub state : Reachability

pub record FunctionOutcomeFact : Type 0 where
  pub function : ℕ
  pub stop : FunctionStopKind
  pub stop_pc : Option ℕ
  pub stack_delta : Option ℤ
  pub instruction_count : Option ℕ

pub record RegisterValueFact : Type 0 where
  pub instruction : ℕ
  pub point : RegisterStatePoint
  pub register_id : Text
  pub bytes : List ℕ

pub record CallValue : Type 0 where
  pub ordinal : ℕ
  pub location : Text
  pub bytes : List ℕ

pub record CallObservationFact : Type 0 where
  pub source : ℕ
  pub target : Option ℕ
  pub kind : CallKind
  pub result : CallResult
  pub arguments : List CallValue
  pub returns : List CallValue

pub data FactPayload : Type 0 where
  code_target : CodeTargetFact → FactPayload
  branch_reachability : BranchReachabilityFact → FactPayload
  memory_access : MemoryAccessFact → FactPayload
  memory_value : MemoryValueFact → FactPayload
  string_candidate : StringCandidateFact → FactPayload
  function_candidate : FunctionCandidateFact → FactPayload
  function_trait : FunctionTraitFact → FactPayload
  code_region : CodeRegionFact → FactPayload
  dispatch_map : DispatchMapFact → FactPayload
  cfg_candidate : CfgCandidateFact → FactPayload
  function_outcome : FunctionOutcomeFact → FactPayload
  register_value : RegisterValueFact → FactPayload
  call_observation : CallObservationFact → FactPayload

pub record AnalysisFact : Type 0 where
  pub payload : FactPayload
  pub evidence : Evidence

unfoldable pub fact_kind : FactPayload → FactKind
fact_kind (code_target f) = code_target_kind
fact_kind (branch_reachability f) = branch_reachability_kind
fact_kind (memory_access f) = memory_access_kind
fact_kind (memory_value f) = memory_value_kind
fact_kind (string_candidate f) = string_candidate_kind
fact_kind (function_candidate f) = function_candidate_kind
fact_kind (function_trait f) = function_trait_kind
fact_kind (code_region f) = code_region_kind
fact_kind (dispatch_map f) = dispatch_map_kind
fact_kind (cfg_candidate f) = cfg_candidate_kind
fact_kind (function_outcome f) = function_outcome_kind
fact_kind (register_value f) = register_value_kind
fact_kind (call_observation f) = call_observation_kind

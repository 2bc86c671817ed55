-- ===== src/Evals/Suite.antt =====
-- evals/trajectory.py: the committed suite of twenty scenarios.
pub mod Routed
mod Tests
use arush_adabala_tax_liabil.Prelude.{
  ℕ, zero, suc, ◌+◌, ◌-◌, ◌*◌, ◌/◌, ◌%◌, ◌≤◌, ◌<◌, min, String, ◌≡◌, refl, sym, ap, ◌∙◌, ◌≢◌, ◌↔◌,
  ◌⊎◌, inl, inr, Bool, true, false, not, ◌&&◌, ◌||◌, Option, none, some, List, [], ◌∷◌, ◌++◌, map,
  arith, ltb, leb, if◌then◌else◌, Bool-cases, Option-cases, leb→le, lt→ltb, Eq, ◌==◌, ==_refl,
  length, take, get_elem?, length-append, length-take, length-map, any, All, All-append, All-take,
  contains, Exc, Result, ok, raised, bind, bind-eq-ok, Result-cases, ok_injective, ok_or,
  budget_exceeded, value_error, key_error, type_error, runtime_error, timeout_error,
  validation_error, dependency_unavailable, string_eq, nat_eq, list_eq, graph_recursion,
  http_timeout, http_error, cancelled, other,
}
use arush_adabala_tax_liabil.Prelude.Text.{Text, codes}

pub record Scenario : Type 0 where
  pub qid : String
  pub question : Text
  pub tenant_id : Text
  pub expected_nodes : List String
  pub expected_answer_substring : Text

abbrev pub docs_only : List Scenario
docs_only =
    record {
      qid = "docs-only-01";
      question = codes "what is the policy on taxpayer returns";
      tenant_id = codes "tenant-a";
      expected_nodes = "retrieval_agent" ∷ "synthesis_agent" ∷ [];
      expected_answer_substring = codes "policy";
    }
    ∷ record {
      qid = "docs-only-02";
      question = codes "how do i claim a home office deduction";
      tenant_id = codes "tenant-b";
      expected_nodes = "retrieval_agent" ∷ "synthesis_agent" ∷ [];
      expected_answer_substring = codes "deduction";
    }
    ∷ record {
      qid = "docs-only-03";
      question = codes "what is the standard deduction for a sole trader";
      tenant_id = codes "tenant-c";
      expected_nodes = "retrieval_agent" ∷ "synthesis_agent" ∷ [];
      expected_answer_substring = codes "deduction";
    }
    ∷ record {
      qid = "docs-only-04";
      question = codes "which rule governs late filing penalties";
      tenant_id = codes "tenant-a";
      expected_nodes = "retrieval_agent" ∷ "synthesis_agent" ∷ [];
      expected_answer_substring = codes "penalt";
    }
    ∷ record {
      qid = "docs-only-05";
      question = codes "where in the docs is the mileage allowance defined";
      tenant_id = codes "tenant-b";
      expected_nodes = "retrieval_agent" ∷ "synthesis_agent" ∷ [];
      expected_answer_substring = codes "mileage";
    }
    ∷ record {
      qid = "docs-only-06";
      question = codes "how do i register for VAT";
      tenant_id = codes "tenant-c";
      expected_nodes = "retrieval_agent" ∷ "synthesis_agent" ∷ [];
      expected_answer_substring = codes "register";
    }
    ∷ record {
      qid = "docs-only-07";
      question = codes "what is the policy on amended returns";
      tenant_id = codes "tenant-a";
      expected_nodes = "retrieval_agent" ∷ "synthesis_agent" ∷ [];
      expected_answer_substring = codes "amend";
    }
    ∷ []

abbrev pub api_only : List Scenario
api_only =
    record {
      qid = "api-only-01";
      question = codes "what is the status of order ord-synth-9001";
      tenant_id = codes "tenant-b";
      expected_nodes = "api_agent" ∷ "synthesis_agent" ∷ [];
      expected_answer_substring = codes "ord-synth-9001";
    }
    ∷ record {
      qid = "api-only-02";
      question = codes "show me order ord-synth-9002";
      tenant_id = codes "tenant-c";
      expected_nodes = "api_agent" ∷ "synthesis_agent" ∷ [];
      expected_answer_substring = codes "ord-synth-9002";
    }
    ∷ record {
      qid = "api-only-03";
      question = codes "refund ord-synth-9003 for 10.00";
      tenant_id = codes "tenant-a";
      expected_nodes = "api_agent" ∷ "synthesis_agent" ∷ [];
      expected_answer_substring = codes "ord-synth-9003";
    }
    ∷ record {
      qid = "api-only-04";
      question = codes "has order ord-synth-9004 shipped";
      tenant_id = codes "tenant-b";
      expected_nodes = "api_agent" ∷ "synthesis_agent" ∷ [];
      expected_answer_substring = codes "ord-synth-9004";
    }
    ∷ record {
      qid = "api-only-05";
      question = codes "what is the status of my latest filing";
      tenant_id = codes "tenant-c";
      expected_nodes = "api_agent" ∷ "synthesis_agent" ∷ [];
      expected_answer_substring = codes "status";
    }
    ∷ record {
      qid = "api-only-06";
      question = codes "issue a refund of 25.00 on ord-synth-9005";
      tenant_id = codes "tenant-a";
      expected_nodes = "api_agent" ∷ "synthesis_agent" ∷ [];
      expected_answer_substring = codes "ord-synth-9005";
    }
    ∷ record {
      qid = "api-only-07";
      question = codes "list the line items on order ord-synth-9006";
      tenant_id = codes "tenant-b";
      expected_nodes = "api_agent" ∷ "synthesis_agent" ∷ [];
      expected_answer_substring = codes "ord-synth-9006";
    }
    ∷ []

abbrev pub both : List Scenario
both =
    record {
      qid = "both-01";
      question = codes "look up order ord-synth-9001 and tell me the refund policy";
      tenant_id = codes "tenant-c";
      expected_nodes = "retrieval_agent" ∷ "api_agent" ∷ "synthesis_agent" ∷ [];
      expected_answer_substring = codes "refund";
    }
    ∷ record {
      qid = "both-02";
      question = codes "what is the status of ord-synth-9007 and which rule covers it";
      tenant_id = codes "tenant-a";
      expected_nodes = "retrieval_agent" ∷ "api_agent" ∷ "synthesis_agent" ∷ [];
      expected_answer_substring = codes "rule";
    }
    ∷ record {
      qid = "both-03";
      question = codes "how do i refund order ord-synth-9008";
      tenant_id = codes "tenant-b";
      expected_nodes = "retrieval_agent" ∷ "api_agent" ∷ "synthesis_agent" ∷ [];
      expected_answer_substring = codes "refund";
    }
    ∷ record {
      qid = "both-04";
      question = codes "check order ord-synth-9009 against the deduction policy";
      tenant_id = codes "tenant-c";
      expected_nodes = "retrieval_agent" ∷ "api_agent" ∷ "synthesis_agent" ∷ [];
      expected_answer_substring = codes "deduction";
    }
    ∷ record {
      qid = "both-05";
      question = codes "what is the refund policy and the status of ord-synth-9010";
      tenant_id = codes "tenant-a";
      expected_nodes = "retrieval_agent" ∷ "api_agent" ∷ "synthesis_agent" ∷ [];
      expected_answer_substring = codes "refund";
    }
    ∷ record {
      qid = "both-06";
      question = codes "show the docs for refunds and the status of order ord-synth-9011";
      tenant_id = codes "tenant-b";
      expected_nodes = "retrieval_agent" ∷ "api_agent" ∷ "synthesis_agent" ∷ [];
      expected_answer_substring = codes "refund";
    }
    ∷ []

abbrev pub scenarios : List Scenario
scenarios = docs_only ++ api_only ++ both

-- a fresh list of the same rows
abbrev pub load_scenarios : List Scenario
load_scenarios = scenarios

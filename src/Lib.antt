-- ===== src/Lib.antt =====
-- A verification library for the Python services of this repository: the agent service
-- (taxcalc-agent-svc) with its evaluation, the retrieval sidecar (taxcalc-ai) and the MCP server
-- (taxcalc-mcp-server).
--
-- A request enters the agent's graph: the supervisor plans the workers by keywords, the retrieval and
-- the api node run as one super-step on one shared budget guard, their contributions are folded into
-- the state by reducers, and synthesis streams a typed answer that the SSE bridge frames for the
-- client. Retrieval calls the sidecar: semantic cache, rank fusion, MMR and rerank. The api node calls
-- the MCP server over a session that the runtime opens once: its middleware binds the caller's token and
-- tenant, and each of its four tools validates its arguments, refuses a foreign tenant, calls a service
-- and maps the reply. The evaluation runs the graph on a suite of questions and gates the summary.
--
-- Files, by the code they model:
--   Agent/Budget      taxcalc-agent-svc/src/taxcalc_agent_svc/budgets.py: BudgetGuard; Budget/Fanout is
--                     the step relation of two legs that share the guard
--   Agent/State       state.py: AgentState and its reducers
--   Agent/Deadline    nodes/_deadline.py: deadline
--   Agent/Graph       graph.py: supervisor and build_graph
--   Agent/Api         nodes/api.py: the tool-use loop, inject_context, idempotency_key
--   Agent/Retrieval   nodes/retrieval.py: rewrite_query, shape_docs, doc_id_of, _retrieval
--   Agent/Synthesis   nodes/synthesis.py: _stream_once and the repair loop of _synthesis
--   Agent/Sse         sse.py: frame, _final_answer_payload, event_stream
--   Agent/Deps        deps.py: budget_guard, mcp_session, open_session
--   Agent/Runtime     runtime.py: Dependencies.graph, reconnect_forever, session, _serve_session
--   Ai/Ingest         taxcalc-ai/src/taxcalc_ai/embedder.py, pgvector_loader.py: the gate and the upsert
--   Evals/Trajectory  taxcalc-agent-svc/evals/trajectory.py: trajectory_match
--   Evals/Suite       evals/trajectory.py: SCENARIOS
--   Evals/Contexts    evals/trajectory.py: hydrate_contexts
--   Evals/Run         evals/trajectory.py: run_eval, cost_regression, score_with_ragas
--   Evals/Gate        taxcalc-agent-svc/src/taxcalc_agent_svc/scripts/eval.py: verdict, _report, _run
--   Mcp/Errors        taxcalc-mcp-server/src/taxcalc_mcp_server/errors.py: the code table
--   Mcp/Money         numeric.py, and the amount of a refund
--   Mcp/Tenancy       tenancy.py: the caller's identity, auth_headers, parse_bearer
--   Mcp/Observability observability.py: observe
--   Mcp/Http          the requests of the tools, and the mapping of a status
--   Mcp/Orders        tools/orders.py: arguments and handlers
--   Mcp/Llm           tools/llm.py: wire shapes, the reply, its price
--   Mcp/Rag           tools/rag.py: the shaped answer
--   Mcp/Dispatch      app.py: call_tool and the handler around the SDK's
--   Mcp/Middleware    transports/sse.py: BearerMiddleware
--   Mcp/Reports       the four tools under observe
--   Mcp/Json          JSON values; Mcp/Samples: data for the tests
--   Ai/Chunker        taxcalc-ai/src/taxcalc_ai/chunker.py: chunk ids and stamps
--   Ai/Cache          cache.py: keys, epochs, lookup and store
--   Ai/Hybrid         hybrid.py: rrf_fuse
--   Ai/Mmr            rerank.py: mmr_pick
--   Ai/Rerank         rerank.py: the two backends; metrics.py: record_rerank
--   Ai/Rag            rag.py: retrieve_and_generate
--   Ai/Sorting        Python's stable sort by a descending key
--   Prelude           shared types and lemmas: results, dictionaries, text, decimal print
--
-- Conventions. A call that may raise answers a result, beside the state that it leaves where the code
-- keeps writes made before a raise. Text is a list of code points. Token counts are numbers from
-- zero. Floats, JSON values and the services behind the network are parameters; what the code relies
-- on of them is named where it is used. So is what becomes of the guard that two legs share while one
-- of them awaits a reply. Bounded loops recurse on the bound that the code itself has: five tool
-- iterations, three attempts, k picks, the recursion limit of a run, the attempts to open a dependency.
-- The background loop that reconnects has none, and takes a number of rounds; one more than there are
-- attempts until the dependency comes up is enough for it to settle.
--
-- Not modelled: HTTP routes, settings, and the logs and spans but those of the MCP tools; the SQL of the
-- retrievers; the coverage diagnostic; the RAGAS gate of the sidecar and its HTTP client; measurement
-- scripts; the Java services and the web client, which are other languages.
pub mod Prelude
pub mod Agent
pub mod Ai
pub mod Evals
pub mod Mcp

-- ===== src/Lib.antt =====
-- Mercury Trading: campaigns of strategy research and PAPER trading.
--
-- A campaign plans experiments, each a strategy with parameters. The campaign service queues a job for
-- each of them, workers lease and execute the jobs, and when no job is active the campaign is ranked and
-- its best strategies are evaluated once on a test period that was locked until then. PAPER trading runs
-- a strategy over market bars: signals become orders, the risk engine submits or rejects them, the broker
-- fills them by an execution model, and the fills move the portfolio.
--
-- Files, and the code that each is about:
--   Base          shared names: lists, results, integers, dates, the tests of numbers, methods on a database
--                 session (Session) and what such methods keep (Keeps)
--   Campaigns/Splits       app/campaigns/splits.py: build_temporal_split, validate_temporal_split
--   Campaigns/WalkForward  app/campaigns/walk_forward.py: build_walk_forward_windows, and its call in
--                 _run_walk_forward_evaluations of app/campaigns/service.py (Leakage)
--   Campaigns/Service      app/campaigns/service.py, class CampaignService. Model has the rows of
--                 app/models/campaign.py; Action the methods as changes of the tables with a value or an
--                 exception; Jobs the queue (claim_next_job, heartbeat, cancel_job, recover_stale_jobs,
--                 _retry_or_fail); Planning _create_job and run_campaign; Experiments _run_campaign_experiment; Settling the end
--                 of execute_claimed_job; Lifecycle cancel_campaign, finalize_campaign,
--                 _refresh_campaign_state, execute_claimed_job, recover_interrupted_campaigns. The
--                 proofs: Rows (the life of a job row), Frames and Work (what the work may write),
--                 Execution, Sweeps, Validity, Creation and Reachability (the invariant), Leasing,
--                 Retries, Stranded, Cancellation, Stress.
--   Campaigns/Optimization app/campaigns/optimization.py: Space ParameterSpace, Sampling
--                 generate_parameter_variants, _optuna_search, _diverse_candidates and _unique; Plan _plan_campaign of
--                 app/campaigns/service.py. The proofs: Variants and Planned.
--   Campaigns/Scoring      detect_overfitting of app/campaigns/overfitting.py and score_experiment of
--                 app/campaigns/ranking.py (Defs); the range of the components (Bounds).
--   PaperTrading/Number    the floating-point operations, as an interface with laws
--   PaperTrading/Events    app/paper_trading/events.py
--   PaperTrading/Portfolio app/paper_trading/portfolio.py
--   PaperTrading/Risk      app/paper_trading/risk.py
--   PaperTrading/Execution app/paper_trading/execution.py and app/paper_trading/broker.py (Broker)
--   PaperTrading/Strategy  app/paper_trading/strategy.py
--   PaperTrading/Replay    the loop of create_session in app/paper_trading/service.py (Defs has its state and
--                 writes, Loop a bar and the whole replay) and app/paper_trading/stream.py (Stream)
--   PaperTrading/Clock     app/paper_trading/clock.py
--   PaperTrading/Live      LiveSessionRunner of app/paper_trading/live_service.py: Defs the rows and the variables, Bar
--                 the body of the loop over bars, Run the warm-up, the loops over streams and bars and the two
--                 ends of a run; Feed StaticLiveMarketDataProvider of app/market_data/live.py. The proofs:
--                 Rows, Stages, Sound, Session, Limit, Reconnect.
--   Governance    app/governance/service.py: Ledger record, rules and explain of DecisionService on the rows of
--                 app/models/governance.py. The proofs: Sorting and Integrity.
--   StrategyDsl   app/strategy_dsl: Syntax schemas.py, Validation validation.py, Evaluation and Compiler
--                 compiler.py, Service service.py. The proofs: WellFormed, Causality, Records.
--   StrategyHealth  app/strategy_health/service.py: Assessment assess_health, Model the rows of
--                 app/models/strategy_health.py, Rows what the methods read of them, Research the
--                 triggers and schedules, Service observations and transitions. Operations has sequences of
--                 calls; the proofs are in Consistency, Retirement, Triggers, Degradation and
--                 Observed.
--   MlLifecycle   app/ml_research/lifecycle.py: Drift assess_drift, Model the rows of app/models/ml.py,
--                 Service record_drift, retrain and the loop of lineage, Promotion decide_promotion. The
--                 proofs: Statuses and Verdict, Growth (sequences of calls) and Lineage.
--   ModelRouting  app/model_routing: Defs the records, the registry and the router, Fallback the chain of
--                 fallbacks of execution.py; Selection the proof about the router.
--
-- Strategies of the language are validated and stored once; a stored strategy has a health that decides
-- whether research is triggered, which creates a campaign; models have a life cycle of their own.
--
-- The model. Rows are records, the tables are lists in order of creation, and a method of the service is a
-- function from the store to a result and a store; what was written before an exception stays written. A
-- call is one transaction, since the database gives each lease to one worker. A UUID is a number that is
-- compared only: a new one is a number that no row has, and that of a new model is an argument, refused if a
-- row has it. An instant is a number of microseconds (of seconds for the health of
-- strategies), a date its ordinal. The
-- backtests, the overfitting flags, the stress test, the comparison of scores and the evolution are the
-- record `Research`, a parameter of the service. The dates' texts are a parameter, with the documented
-- inverse where a round trip needs it. Floats are a parameter, with the laws of comparison and of the
-- signs of sums, which hold of finite doubles, where a theorem says `IsOrdered`. Cancellation that another
-- session requests while a job runs is a flag of execute_claimed_job. The data-frame library, the hash and
-- the formatting of numbers are parameters of the strategy language, with what is documented of the library
-- where positions are compared; the health service takes the creation of a campaign, and the life cycle of
-- models takes training, as a parameter.
--
-- A live session has a record of what is committed and a draft of what the open database session wrote; an
-- exception drops the draft and keeps the variables of the loop. Its environment is a list of streams: each
-- gives bars and stop events and ends, or raises. The text of an exception is kept, its time is not.
-- The hash and the JSON values of the ledger are parameters, and so is the order in which its query returns
-- rules, which the theorems restrict to orders that keep rules of one name as they were. The values of
-- parameters, with Python's comparisons of them, the shuffle and the proposals of Optuna are parameters of the
-- optimisation.
--
-- Fuel. `list(dict.fromkeys(xs))` runs on fuel, the length of the list, which is enough since each
-- round takes an element away, and the loop over the parents of a model, on the length of the table,
-- which is enough since no parent comes after its child. The loop over the windows counts its rounds down.
--
-- Simplified: the run of a chain of fallbacks takes the outcome of a model as a function of its id; the
-- volume of a live bar is a natural number, and so are the lengths of windows; division by zero in the average
-- price of a fill, and dates beyond the last one, do not raise.
--
-- Not modelled: the request that creates a campaign, apart from its plan; the parsing of a raw space of
-- parameters; evaluations of portfolios, the texts of reports, the session row and
-- the metrics of a replay, the race on the unique key that the database settles in _create_job, the threads and
-- the monitoring of live sessions, the payloads of trace events, the timeline of a strategy, training, clients
-- of language models, and the remaining packages of app, which store, compute or present data around
-- these.
pub mod Base
pub mod Campaigns
pub mod Governance
pub mod MlLifecycle
pub mod ModelRouting
pub mod PaperTrading
pub mod StrategyDsl
pub mod StrategyHealth

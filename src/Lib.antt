-- ===== src/Lib.antt =====
-- Model Fleet: the Kubernetes operator and control plane of a fleet of model services, training runs
-- and agents. This library models the Python package `src/modelfleet` and one of the scripts
-- beside it.
--
-- The parts and how they interact. A person writes a command in Slack (src/modelfleet/slack.py). It is
-- parsed, checked against the allowed users and channels, and either applied at once as a patch of a
-- custom resource, or put in a Kafka topic (src/modelfleet/kafka.py) from which a worker
-- (src/modelfleet/command_worker.py) applies it. The operator (src/modelfleet/operator.py) watches the
-- custom resources and converges Kubernetes objects, which src/modelfleet/resources.py builds. The
-- supervisor (src/modelfleet/supervisor.py) routes the tasks of users to agents over Kafka. An agent
-- (src/modelfleet/agent_runtime.py) answers them; the fleet agent (src/modelfleet/fleet_agent.py) is the
-- one that changes the fleet, with the commands of slack.py. Agents are registered at
-- src/modelfleet/registry.py, behind the token of src/modelfleet/control_auth.py. The gateway
-- (src/modelfleet/gateway.py) forwards chat completions to the model services and counts what they cost.
-- A script (scripts/render_permissions.py) renders the identities that the workloads run with.
--
-- Where what is modelled:
--   Python.*      the part of the language and of its standard library that the code uses: values
--                 (JSON-like objects), exceptions, texts, `int()`, `float()`, IEEE 754 binary64
--                 arithmetic, `shlex.split` and `shlex.quote`, `==` and truth.
--   Resources.*   resources.py. Gpu: gpu_class, gpu_memory_requirement. Accelerator: _apply_accelerator,
--                 _apply_gpu_product_affinity. Pod: _labels, _owner, spec_hash, _container,
--                 _init_containers. Datasets: _apply_datasets. Inference: build_deployment, build_service,
--                 build_http_route, build_scaled_object. Training: build_training_job.
--   Kube          what the program sees of the API server and of Kafka: a call is data, an `Oracle`
--                 answers it and may depend on all earlier calls. `Action` passes the calls made, kopf's
--                 `patch.status` and the metrics, and ends in a result or an exception.
--   Operator.*    operator.py. Apply: _upsert, _apply_custom, _delete_custom. Inference, Agents, Training:
--                 the reconcilers, the status timers and the kopf handlers.
--   Slack.*       slack.py. Command: Command, AgentCommand and the regular expressions. Parse:
--                 parse_command. Fleet: FleetClient.execute and apply. Handle: _allowed and handle.
--                 Status: FleetClient.status. Home: home_view. Home.App: the handlers of create_app.
--                 Quota: parse_quota_command of src/modelfleet/cloud_quotas.py.
--   Kafka         kafka.py: new_command, validate_command, event_payload, Publisher.enqueue.
--                 Kafka.Config: KafkaConfig and the configuration of the producer.
--   Worker        command_worker.py: process, and the treatment of one message in main.
--   Supervisor    supervisor.py: exact_skill, validate_selection, Supervisor.select and submit,
--                 apply_result; TaskSubmission and the message of protocol.py.
--   AgentRuntime  agent_runtime.py: AgentWorker.process, the endpoint that calls it, one message of run.
--   FleetAgent    fleet_agent.py: CARD (FleetAgent.Card), the handlers, _control, _register.
--   Tracing       tracing.py: TaskTracer.
--   ControlAuth   control_auth.py: require_control_token.
--   Registry      registry.py and the cards of protocol.py: _resource_name and the ranking. Registry.Store:
--                 KubernetesRegistry and the routes.
--   CloudQuotas   cloud_quotas.py: CloudQuotaManager at AWS; CloudQuotas.Gcp: at Google Cloud, and request.
--   CostReport    cost_report.py: the queries and the snapshot. CostReport.Report: the report.
--   Gateway       gateway.py: the endpoints of create_app and record_usage.
--   Permissions   scripts/render_permissions.py: render and the three profiles.
--   Tests.*       runs, and the theorems at concrete inputs.
-- A dictionary is an ordered list of fields; a copy that Python makes before it changes an object needs
-- no counterpart, since values do not change. `deepcopy` and object identity are used nowhere else.
--
-- Bounds and fuel. Numbers are unbounded, as in Python. A float is a number of units of 2 ^ -1074;
-- rounding looks for the binary length with fuel 4400, above the length of each product or quotient
-- of two floats in these units. Decimal digits are made with the number itself as fuel, which exceeds its
-- number of digits. White space, upper case and the digits of `int` and `float` are those of
-- ASCII; `str.isdigit` has the digits of Unicode 14. The number of attempts is the configured one, and
-- five for a registration.
--
-- Parameters: `json.dumps`, SHA-256 and `repr` (`Library`, and `dumps` of the ruleset), the answers of
-- the API server, of Kafka and of HTTP services (`Oracle`), the registry and the gateway as the
-- supervisor asks them, pydantic's decoders, the clock, the environment, the identities of commands, the
-- calls of MLflow, AWS and Google Cloud, the sum of a list of floats and `str.upper`, and the texts of
-- Python's own errors. Where a theorem assumes something of them, such as that MLflow
-- makes no call to the cluster, its comment says so.
--
-- Not modelled: the configuration from the environment but for Kafka's, logging, pauses, threads, HTTP
-- servers, errors of the file system and the Slack, kopf and Kafka wiring; the Grafana module; charts,
-- infrastructure, the Go SDK and the other scripts.
pub mod AgentRuntime
pub mod CloudQuotas
pub mod ControlAuth
pub mod CostReport
pub mod FleetAgent
pub mod Gateway
pub mod Tracing
pub mod Permissions
pub mod Prelude
pub mod Python
pub mod Registry
pub mod Resources
pub mod Kube
pub mod Operator
pub mod Kafka
pub mod Slack
pub mod Worker
pub mod Supervisor
pub mod Tests

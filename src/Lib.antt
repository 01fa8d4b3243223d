-- ===== src/Lib.antt =====
-- VPN Suite: the parts of the service that decide what its WireGuard nodes and its customers get.
--
-- The backend (backend/app) keeps users, subscriptions, payments, servers and devices in a database.
-- It brings the peers of a node in line with the database through an adapter (the reconciliation
-- engine), picks the node of a new peer (the load balancer), plans how peers move between nodes (the
-- control plane), extends subscriptions when a payment arrives (the payment service), and keeps a
-- table of alerts on what the containers' telemetry shows. On a node without an adapter the node
-- agent (node-agent) fetches the desired peers from the backend and applies them itself with the
-- interface's tools; it also polls a queue of actions and reports how they ended.
--
-- Modules and code:
--   Reconcile    backend/app/services/reconciliation_engine.py: Peer has the rows and
--                `_peer_allowed_ips`, `_is_valid_server_allowed_ips`; Diff has `compute_diff`; Apply
--                has `apply_diff`; Round puts a diff, its application and the next diff together.
--                Nodes has `reconcile_node`, `reconcile_all_nodes` and the delays of
--                `run_reconciliation_loop`; Nodes.Settles is about one round, Nodes.Loop about the rest.
--                The adapter (backend/app/services/node_runtime.py) is the parameter NodeRuntime at
--                one node, and Adapter at all.
--   NodeAgent    node-agent/agent.py: Keys has the name checks, Plan the maps and lists of
--                `_reconcile`, Cycle its guards, its three loops and the save.
--                The commands `awg set`, `wg set` and `awg-quick save` are the parameter WgTool.
--   Rebalance    backend/app/services/control_plane_service.py: Moves has the loop that hands a
--                source's peers to receivers, Plan has `plan_rebalance` and `_graph_rebalance_edges`.
--                What is computed in floating point is the parameter Watermarks.
--   Payments     backend/app/services/payment_webhook_service.py and the rows it uses
--                (backend/app/models): Records has the tables, Effects has
--                `_apply_payment_success_effects`, Webhook has `process_payment_webhook` and
--                `complete_pending_payment_by_bot`.
--   Alerts       backend/app/services/docker_alert_rule_engine.py: Rules finds the active rules,
--                Engine changes the table of alerts; both are parts of `evaluate_once`.
--                The digest of a fingerprint is a parameter.
--   Actions      backend/app/services/agent_action_service.py, and `agent_v1_actions_poll` and
--                `agent_v1_actions_report` of backend/app/api/v1/agent.py: Queue has the operations
--                and the two endpoints; Drain is about polling, Report about the reports.
--   Balancer     backend/app/services/load_balancer.py: Select has `select_node`. The scores, which
--                are in floating point, are the parameter Scores.
--   Devices      the tasks on the table of devices: Gate has backend/app/core/
--                handshake_quality_gate_task.py, whose telemetry is an argument, and Expiry has
--                backend/app/core/device_expiry_task.py; Rows has the columns they read. Handlers has
--                the handlers of backend/app/api/v1/devices.py that change devices: Handlers.Settles
--                puts a suspension together with a round of the reconciliation, Handlers.Placed is
--                about a reset and a repeated application of a peer.
--   Limits       backend/app/core/rate_limit.py and error_log_rate_limiter.py: Counter has the hit on
--                a window's counter, with Redis as a parameter, Requests has the checks; Window is
--                about a store that answers, Stuck about one that does not.
--   Tokens       OneTime has backend/app/core/one_time_download.py and Idempotency has
--                backend/app/core/idempotency.py; the digest, the store and JSON are parameters.
--   Config       backend/app/core/config_builder.py: Values reads numbers and ranges, Obfuscation
--                has the two normalisations of the obfuscation parameters, Text has `build_config`
--                with its validators in Text.Fields; Text.Wrappers has
--                backend/app/core/amnezia_config.py. The parsers of `ipaddress` and `base64` are the
--                parameter Parsers.
--   Issue        backend/app/services/issue_service.py: Checks, Prepare and Device have the parts of
--                `issue_device`, Endpoint and Material what it reads of a profile (with
--                node_endpoint_utils.py and server_obfuscation.py), Peer its calls of the adapter
--                (with `_ensure_device_peer_on_node` of admin_issue_service.py), Key has
--                server_live_key_service.py, Trial has trial_service.py, and Admin and Admin.Rotate
--                have `admin_issue_peer` and `admin_rotate_peer` of
--                backend/app/services/admin_issue_service.py, without the rows and tokens of stored
--                configurations. Limit is about the number of
--                devices, Placed about the peer on the node, Key.Sources about the key of a server,
--                Trial.Once about a second trial, Admin.Rotate.Gone about the old key after a
--                rotation, Admin.Rotate.Kept about its address, Admin.Rotate.Served about the new key.
--   Migrate      backend/app/services/migrate_service.py, and `execute_rebalance_plan` of
--                backend/app/services/control_plane_service.py: Peer has `migrate_peer`, Target has
--                `resolve_target_node`, Candidates the query for a move's devices and its order,
--                Execute the loops with their rollback. Moves is about one migration,
--                Execute.Counts about the counters, Execute.Again about the query after moves.
--   Failover     of the same file, Evaluate has `evaluate_failover`, Sync has
--                `_sync_server_provisioning_state`, Cycle has `run_automation_cycle`, which puts
--                Rebalance, Migrate and these two together.
--   Traffic      backend/app/services/limits_check_service.py: Check has `run_limits_check`, and
--                Returns puts it together with a round of the reconciliation.
--   Reminders    Task has backend/app/core/subscription_expiry_reminder_task.py, Rules has
--                backend/app/services/retention_automation_engine.py, Rows their columns; Missed is
--                about the runs of the loop, Silenced about a rule and the task together.
--   Addresses    backend/app/services/address_allocator.py and `allocate_next_address` of
--                backend/app/core/config_builder.py: Octets reads and writes an octet, Allocate has
--                the query and the loop, Free is about what is allocated.
--   Prelude      dictionaries as association lists in insertion order, Python's text operations,
--                Boolean tests, lists.
--
-- A query of a session that does not flush sees the rows as they are stored; where the code changes
-- an object and queries again, as the execution of a rebalance does, a device is kept with the value
-- that is stored (Tracked).
--
-- A dictionary is an association list whose keys are in the order of insertion, and `insert` changes
-- the value of a key in place, as Python does. A text is a native string. A call that may raise gives
-- an `Option` or an outcome beside the state. The clock's readings are arguments.
--
-- The only loop that is not structural is `send` (the `while pending > 0` of the planner). Its fuel is
-- the number of pending peers: every turn moves at least one.
--
-- Hypotheses on parameters are records of laws about calls that return: IsFaithful (a call that
-- succeeds has done what it says and nothing else; the agent's `awg set` moves an address from the
-- peer that had it, so that another peer stays as it is if it shares none), IsReliable (every command
-- succeeds), IsOrdered (the keys of nodes are ordered), IsCounting (what INCR and EXPIRE do to counts
-- and times to live), IsUp (neither raises), CanCount (INCR does not raise), IsStore (a key that was
-- written is read back, until its time to live is over), IsEncoding (an answer is decoded to what was
-- encoded), IsExact (the adapter's calls, node by node and with the whole configuration of a peer: an
-- addition that raises may have been done, but touches no other key, and one without a preshared key
-- leaves that of the node).
--
-- A plan's number of days may be negative; those of promo codes and of referrals are taken not to be.
--
-- Not modelled: log lines, metrics and traces; the HTTP handlers but those named above, their
-- authentication and schemas; sessions, commits and isolation of the database, whose tables are lists
-- here; the Telegram bot, the front ends, the migrations, the scripts and the deployment files. The
-- generation of keys is random: what it gives is an argument. Of the background loops the
-- delays of the reconciliation and the runs of the reminders are modelled; the telemetry and the
-- reports are not. Numbers in an address are written below 1000, which its octets are.

pub mod Prelude
pub mod Reconcile
pub mod NodeAgent
pub mod Rebalance
pub mod Payments
pub mod Alerts
pub mod Actions
pub mod Balancer
pub mod Devices
pub mod Limits
pub mod Tokens
pub mod Config
pub mod Migrate
pub mod Failover
pub mod Traffic
pub mod Reminders
pub mod Addresses
pub mod Issue

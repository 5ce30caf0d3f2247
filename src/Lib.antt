-- ===== src/Lib.antt =====
-- MindsDB answers SQL over the protocols of MySQL and of PostgreSQL and runs scheduled queries. This
-- library models three parts of it: the wire protocol of the MySQL server, the server of PostgreSQL, and
-- the jobs.
--
-- Wire is mindsdb/api/mysql/mysql_proxy. A client sends packets; `get` reads one from the socket,
-- `CommandPacket.setup` reads the command in it, a handler of mysql_proxy.py answers it with packets,
-- whose values are written by `Datum`. The state is that of a session: its sequence number, its socket,
-- and its prepared statements.
--   Wire.Text         what the code asks of Python's `str`: `encode`, `decode`, `str(n)`
--   Wire.Datum        data_types/mysql_datum.py: `toStringPacket` is `to_string_packet`, `setFromBuff`
--                     is `set_from_buff`, `lenencInt` is `lenenc_int`
--   Wire.Packet       data_types/mysql_packet.py: `get`, `get_packet_string`, `load_from_packet_string`
--   Wire.Command      data_types/mysql_packets/command_packet.py: `setup`, `read_params`
--   Wire.Statements   controllers/session_controller.py (`register_stmt`, `unregister_stmt`) and
--                     mysql_proxy.py (`answer_stmt_prepare`, `_execute`, `_fetch`, `_close`)
--   Wire.Rows         resultset_row_package.py, and the null bitmap of binary_resultset_row_package.py
--   Wire.Replies      ok_packet.py, err_packet.py, eof_packet.py, column_count_packet.py,
--                     stmt_prepare_header.py
--   Wire.Handshake    handshake_packet.py, handshake_response_packet.py, switch_auth_packet.py,
--                     switch_auth_response_packet.py, fast_auth_fail_packet.py, password_answer.py
--   Wire.Connection   mysql_proxy.py: `handshake`
--
-- Auth is mindsdb/api/common/check_auth.py: whether a user may connect, over either protocol.
--
-- Postgres is mindsdb/api/postgres/postgres_proxy. A connection begins with a handshake and a password;
-- then `main_loop` reads messages, and each is handled and answered by packets. The state of a connection
-- is the record `Proxy`: its statements and portals, the executors that they share, the status of the
-- transaction, the bytes that the client has still to say and those it was sent. A handler is a function
-- from this state to its outcome, a value or an exception, and the state that it leaves (Common.Method).
--   Postgres.Numbers     `struct.pack` and `unpack` of `!h` and `!i`
--   Postgres.Builder     postgres_packets/postgres_packets.py: `PostgresPacketBuilder`; postgres_fields.py
--   Postgres.Backend     postgres_packets/postgres_message_formats.py: the messages of the server
--   Postgres.Reader      postgres_packets/postgres_packets.py: `PostgresPacketReader`
--   Postgres.Frontend    postgres_packets/postgres_message_formats.py: the messages of the client
--   Postgres.Startup     postgres_packets.py: `read_verify_ssl_request`, `read_startup_message`,
--                        `read_authentication`
--   Postgres.Text        the methods of texts, and `strip_null_byte` of utilities/__init__.py
--   Postgres.Answers     executor/executor.py: `to_postgres_columns`; postgres_proxy.py:
--                        `to_postgres_fields`, `to_postgres_rows`
--   Postgres.Executor    executor/executor.py: `parse`, `stmt_prepare`, `stmt_execute`, `query_execute`
--   Postgres.Proxy       postgres_proxy.py: the state, and how answers are sent
--   Postgres.Handlers    postgres_proxy.py: a handler for each message, and `main_loop`
--   Postgres.Connection  postgres_proxy.py: `handshake`, `authenticate`, `handle`
--
-- Jobs is mindsdb/interfaces/jobs. The scheduler asks for the jobs that are due, locks a run of each by a
-- row of the history, and runs its statements; then the job gets its next run. The state is three tables.
--   Jobs.Split        jobs_controller.py: `split_sql`
--   Jobs.Schedule     jobs_controller.py: `calc_next_date`
--   Jobs.Dates        jobs_controller.py: `_parse_date`, with `strptime` on its formats
--   Jobs.Controller   jobs_controller.py: `JobsController.add`, `delete`; the search by name of
--                     mindsdb/interfaces/database/projects.py
--   Jobs.Listing      jobs_controller.py: `JobsController.get_list`
--   Jobs.Templates    jobs_controller.py: the template variables in `execute_task_local`
--   Jobs.Store        mindsdb/interfaces/storage/db.py: the tables, and the queries on them
--   Jobs.Planning     jobs_controller.py: `get_next_tasks`, `update_task_schedule`
--   Jobs.Locks        jobs_controller.py: `lock_record`; scheduler.py: the heartbeat of `execute_task`
--   Jobs.Execution    jobs_controller.py: `execute_task_local`
--   Jobs.Scheduler    scheduler.py: `execute_async`, `execute_task`, `check_timetable`
--
-- Common has the helpers: tests, lists, octets, association lists, and exceptions as values (`Result`).
-- The modules below a component hold its proofs, and the modules named Examples hold the runs.
--
-- Bytes are numbers, and those below 256 are the bytes of Python; numbers of `struct` keep their bounds and
-- raise as `struct.pack` does. Texts are lists of code points without surrogates. The texts of jobs and
-- schedules are ASCII: `lower`, `strip`, `split` and `isdigit` are those of ASCII. A `datetime` is a number
-- of microseconds since the first day of year 1, below the end of year 9999. A function that reads the
-- clock takes the readings as an argument.
--
-- `byte_count` is the number of bytes of a number, which the code takes from a logarithm; its fuel of nine
-- covers what `struct` can write. The loop of `get` runs on the number of bytes that are still to arrive,
-- and one. `main_loop` runs on the number of bytes of the client and one, since each message takes a byte
-- at least. All other loops are structural.
--
-- Parameters stand for code that is not in the repository or is not modelled: `Engine` of Wire.Statements
-- for the executor of a statement, `Engine` of Postgres.Executor for the parser, the planner and the
-- commands and what pyparsing makes of comments, `Server` for the configuration and `scramble_func`,
-- `Engine` of Jobs.Execution for the parser and the executor of commands, `Dateutil` for the package
-- dateutil. A statement of a job changes nothing in the tables of the jobs. A read of the PostgreSQL
-- server that raises ends the connection, and leaves its buffer as it was.
-- Not modelled: `string<packet>` of `Datum`, the values of binary rows, the rest of mysql_proxy.py,
-- `is_cloud_connection` (an argument of `serve`), `init_session` and `startProxy` of postgres_proxy.py,
-- logging, the history of jobs, `scheduler_monitor`, timeouts of the scheduler between the steps of a task,
-- which its worker thread takes in one turn, and the other parts of MindsDB.
pub mod Common
pub mod Auth
pub mod Wire
pub mod Jobs
pub mod Postgres

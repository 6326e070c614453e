-- ===== src/Lib.antt =====
-- Collegium is an organization of research agents: a scheduler plans work by the domain, a worker runs
-- one role per job of a queue in the database, the Historian records what the critique loop decides of a
-- hypothesis, the owner approves what the organization may say in public, and a separate publisher
-- sends it to a forum. This library models these parts of src/collegium and states what makes
-- them correct. Paths are from the repository's root.
--
-- Prelude and its modules are shared: Boolean tests on native numbers, lists, and database tables as
-- lists of rows with SQL's UPDATE and primary keys. Text is Python's str as code points; Text.Url is
-- urllib.parse.urlsplit and its hostname, as far as the program uses them. Unicode holds the tables of
-- letters and of lower case (Unicode 15.0, as in Python 3.12) that str uses.
--
-- - Jobs: src/collegium/jobs.py, the queue. A `JobRow` is a row of the jobs table, and `enqueue`,
--   `claim`, `succeed`, `fail` and `defer` are the functions of these names. Times are seconds; which
--   rows another transaction has locked is a parameter of `claim`.
-- - Hours: src/collegium/hours.py, the working hours over a zone's data, which is a parameter.
-- - Scheduler: src/collegium/scheduler.py, `tick` over Jobs, Hours and Memory.
-- - Memory: src/collegium/memory.py, the reads and writes that the modelled parts make, on the rows of
--   db/migrations. UUIDs are numbers that are only compared; confidences are in thousandths.
--   `Locale` is what the database's locale decides, its lower() and the blanks of its patterns, and is
--   open in every theorem.
-- - Db: memory and the queue together, which a role's transaction changes or leaves alone.
-- - Historian: src/collegium/roles/historian.py, `decide` and the transaction `persist`.
-- - Community: src/collegium/community.py, the forum's bounds and the addresses of posts.
-- - Outbox: the tables community_posts and publisher_resumes of db/migrations.
-- - Publisher: src/collegium/publisher.py. Publisher.Client reads the forum's answers, and
--   `publish_next` is one run. The forum and `solve`, which asks the language model, are functions that
--   the run takes; a call that raises is an answer of its own.
-- - Owner: src/collegium/owner.py, decisions, the outbox's operations, votes, programs and challenges,
--   on a `Desk` that holds all the tables they touch. An OwnerError, or what Python or the database
--   raises, is a `Refusal`, after which nothing is kept.
-- - Reliability: src/collegium/reliability.py, the kinds of source and what they are worth.
-- - Acquisition: src/collegium/acquisition/__init__.py, the reading of pages by `extract` and its calls.
--   Acquisition.Leads is `discover`, and Acquisition.Gathering `gather`, over the same calls.
--   The providers, the day's budget, the record of what was paid for, `clean_text`, and `sanitize` of
--   src/collegium/untrusted.py are parameters. Acquisition.Several is a search of several sources.
-- - Worker: src/collegium/worker.py, one claimed job from `run_once` on, over Jobs, Hours and Db. A
--   role's `prepare` is a parameter, so that what is shown holds of every role.
-- - Grounding: src/collegium/grounding.py, `locate_excerpt` with the parts of difflib that it uses.
-- - Roles: src/collegium/roles/base.py, how evidence is grounded in documents and stored. Roles.Skeptic,
--   Roles.Resolver, Roles.Researcher and Roles.Mapper are the transactions of skeptic.py, resolver.py
--   with corroborator.py, researcher.py and mapper.py; what the search and the model answer are their
--   arguments. Roles.Loop runs these jobs and the Historian's as roles/__init__.py assigns them.
--
-- The scheduler and the publisher meet the other parts in the tables alone: the scheduler queues what a
-- worker claims, the Historian queues what the critique roles claim, and the owner fills the outbox
-- that the publisher empties. Owner.Traces interleaves the owner's operations with runs of the
-- publisher, whatever the forum answers.
--
-- Every loop of the modelled code is over a list or a fixed count: `next_opening` looks at eight days,
-- as the source does. Fuel is taken by the matching blocks of Grounding, one more than the excerpt has
-- characters, and Grounding.Blocks shows that more would change nothing; and the digits of a number,
-- one more than the number, which Roles.Naming shows to spell it.
--
-- Not modelled: the command line, the web board and telemetry, which present or record; the language
-- model and the search providers, which are outside; the scout, the strategist and the roles that answer,
-- draft, reply and announce, and the prompts of all roles; the patterns of untrusted.py; the owner's
-- missions, questions, domains, feeds and requests; and the CHECKs and triggers of the tables, except where a definition names one.
pub mod Prelude
pub mod Unicode
pub mod Text
pub mod Jobs
pub mod Hours
pub mod Scheduler
pub mod Memory
pub mod Db
pub mod Historian
pub mod Community
pub mod Outbox
pub mod Publisher
pub mod Owner
pub mod Acquisition
pub mod Grounding
pub mod Reliability
pub mod Roles
pub mod Worker

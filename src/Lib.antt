-- ===== src/Lib.antt =====
-- A verification library for Speaker-Attributed-STT, the service in src/sastt/ that turns the audio
-- of a meeting into a transcript with a speaker for each word.
--
-- The program's parts. A pipeline gives diarization turns, embeddings and recognised words to the
-- state of a session (src/sastt/application/session_state.py), which holds the speakers, their
-- identity state machines and voice prototypes (src/sastt/domain/speakers.py). The router
-- (src/sastt/application/overlap_router.py) decides how many sources an overlap is separated into,
-- and linking (src/sastt/application/source_linking.py) gives each source to a speaker.
-- Fusion (src/sastt/application/fusion.py) attributes words to speakers of the session and makes
-- segments (src/sastt/domain/transcript.py), which leave the session as events of an append-only log
-- (src/sastt/domain/events.py). Jobs, events and objects are kept by stores, of which
-- src/sastt/adapters/persistence/memory.py states the contract. A streaming session
-- (src/sastt/application/streaming_pipeline.py) takes audio in frames, runs the pipeline on a rolling
-- window, and at its end replaces what it sent by the result of a pass over the whole audio. Jobs for
-- whole files go through a queue on redis (src/sastt/adapters/queue/redis_queue.py) to a worker
-- (src/sastt/workers/offline_worker.py). The configuration (src/sastt/config.py) switches the router's
-- routes, and its startup gate checks the licences of what they run.
--
-- The files:
--   Errors       src/sastt/domain/errors.py: the exceptions as values, and results
--   Exec         methods that change an object and may raise; Preserves, what each of them keeps
--   Audio        src/sastt/domain/audio.py: Time, Interval, Merge, Buffer
--   Identity     src/sastt/domain/speakers.py: SpeakerIdentityStateMachine
--   Embedding    src/sastt/domain/speakers.py: SpeakerEmbedding and SpeakerPrototype
--   Session      src/sastt/application/session_state.py: SessionSpeakerState; Creating, Merging,
--                Evidence and Resolution are its groups of methods
--   Linking      src/sastt/application/source_linking.py: separated sources and session speakers
--   Router       src/sastt/application/overlap_router.py
--   Transcript   src/sastt/domain/transcript.py
--   Fusion       src/sastt/application/fusion.py: FusionEngine and dedup_words
--   Events       src/sastt/domain/events.py: Log is SessionEventLog, Ulid the identifiers
--   Jobs         src/sastt/domain/events.py: JobState and JobRecord
--   Persistence  src/sastt/adapters/persistence/memory.py
--   Config       src/sastt/config.py: the sections; Checks (their bounds and validators), Defaults,
--                Gates (the startup gate; Gating, Settings and Licences say what it lets run),
--                Overlay (`_deep_merge`), Loading (`load_config`)
--   Offline      src/sastt/application/offline_pipeline.py: Regions, the time that the stages work
--                on; Speakers, what they do with the session; Overlaps, one region
--   Streaming    src/sastt/application/streaming_pipeline.py: StreamingSession. Rolling and
--                Finishing are its methods, Superseding the choice of the event to replace;
--                Frames and Keeping say what every method keeps
--   Queue        src/sastt/adapters/queue/redis_queue.py: Task, Tasks (RedisTaskQueue); Redis is the
--                interface of redis, Broker the abstract queue that it is refined to, Recovery
--                what `requeue_stale` is on it
--   Worker       src/sastt/workers/offline_worker.py: OfflineWorker
--   Examples     concrete inputs for the theorems
--   Prelude      Python's lists, dicts, sorting and texts, and the shared lemmas
--
-- How state is modelled. An object is a record; a method that changes it is a function to the result
-- and the new object, which comes back beside an exception too (Exec). Objects that are reached by a
-- dict only are written back under their key. A dict is the function from its keys.
--
-- Parameters. Vectors and floats (numpy), the calibrator, the solver of the assignment
-- problem (scipy), the random part of a ULID, SHA-256 and the trimming of white space are arguments.
-- Redis is a record of the commands on lists with their documented laws, and a JSON text is identified
-- with its value. The clock and new ids are functions of the number of the event or of the round. A
-- streaming session takes its models, the overlap stages and the offline pipeline as ports, which
-- change the speakers in any way; the worker takes the stores, the pipeline and the text of an
-- exception. A configuration's file, its conversion to typed sections (pydantic) and the manifest
-- files are arguments.
--
-- Bounds. `get` follows the merge links for one round more than the session has speakers; on a
-- forest of merges that is always enough, and merging keeps the forest. The loop of `requeue_stale`
-- gets one round more than the processing list is long, which is enough. The loop of `_split_crop` gets
-- a round for each millisecond, and it is proved to need no more. The worker's endless loop is
-- the list of its rounds. All other loops are structural.
--
-- Not modelled: `OfflinePipeline.run` and its stages that only call models, the HTTP and
-- WebSocket interface, and the adapters of models, databases and storage.
pub mod Audio
pub mod Config
pub mod Embedding
pub mod Errors
pub mod Events
pub mod Examples
pub mod Exec
pub mod Fusion
pub mod Identity
pub mod Jobs
pub mod Linking
pub mod Offline
pub mod Persistence
pub mod Prelude
pub mod Queue
pub mod Router
pub mod Session
pub mod Streaming
pub mod Transcript
pub mod Worker

-- ===== src/Examples/Reconciles.antt =====
-- A provisional speaker with a voice, beside a speaker that has one.
use speaker_attributed_stt.Session.Merging.Forest.{IsForest}
use speaker_attributed_stt.Offline.Speakers.{reconcile_temporary_speakers}
use speaker_attributed_stt.Offline.Reconciling.{reconcile_temporary_speakers-IsForest}
use speaker_attributed_stt.Examples.Speakers.{numbers}
use speaker_attributed_stt.Examples.Links.{scores, diagonal, config}
use speaker_attributed_stt.Examples.Merging.{three, three-IsForest}

reconcile_temporary_speakers-IsForest_example :
    IsForest (reconcile_temporary_speakers numbers scores diagonal 1 config three).1
reconcile_temporary_speakers-IsForest_example =
    reconcile_temporary_speakers-IsForest numbers scores diagonal 1 config three three-IsForest
